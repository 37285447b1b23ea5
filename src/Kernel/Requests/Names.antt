-- ===== src/Kernel/Requests/Names.antt =====
-- internal/fusekernel/fuse_kernel.go: the structures before names, by the widths of their fields.
use fuse.Base.{ℕ, List, [], ◌∷◌, Bytes.{Bytes}}
use fuse.Kernel.Layout.{field}

pub record MkdirIn : Type 0 where
  pub mode : ℕ  -- uint32
  pub umask : ℕ  -- uint32

abbrev pub mkdir_in : List ℕ
mkdir_in = 4 ∷ 4 ∷ []

unfoldable pub decode_mkdir_in : Bytes → MkdirIn
decode_mkdir_in b = record { mode = field mkdir_in 0 b; umask = field mkdir_in 1 b }

pub record MknodIn : Type 0 where
  pub mode : ℕ  -- uint32
  pub rdev : ℕ  -- uint32
  pub umask : ℕ  -- uint32

abbrev pub mknod_in : List ℕ
mknod_in = 4 ∷ 4 ∷ 4 ∷ 4 ∷ []

unfoldable pub decode_mknod_in : Bytes → MknodIn
decode_mknod_in b = record {
  mode = field mknod_in 0 b;
  rdev = field mknod_in 1 b;
  umask = field mknod_in 2 b;
}

pub record CreateIn : Type 0 where
  pub flags : ℕ  -- uint32
  pub mode : ℕ  -- uint32
  pub umask : ℕ  -- uint32

abbrev pub create_in : List ℕ
create_in = 4 ∷ 4 ∷ 4 ∷ 4 ∷ []

unfoldable pub decode_create_in : Bytes → CreateIn
decode_create_in b = record {
  flags = field create_in 0 b;
  mode = field create_in 1 b;
  umask = field create_in 2 b;
}

pub record RenameIn : Type 0 where
  pub newdir : ℕ  -- uint64

abbrev pub rename_in : List ℕ
rename_in = 8 ∷ []

unfoldable pub decode_rename_in : Bytes → RenameIn
decode_rename_in b = record { newdir = field rename_in 0 b }

pub record LinkIn : Type 0 where
  pub oldnodeid : ℕ  -- uint64

abbrev pub link_in : List ℕ
link_in = 8 ∷ []

unfoldable pub decode_link_in : Bytes → LinkIn
decode_link_in b = record { oldnodeid = field link_in 0 b }

pub record ForgetIn : Type 0 where
  pub nlookup : ℕ  -- uint64

abbrev pub forget_in : List ℕ
forget_in = 8 ∷ []

unfoldable pub decode_forget_in : Bytes → ForgetIn
decode_forget_in b = record { nlookup = field forget_in 0 b }

pub record BatchForgetCountIn : Type 0 where
  pub count : ℕ  -- uint32

abbrev pub batch_forget_count_in : List ℕ
batch_forget_count_in = 4 ∷ 4 ∷ []

unfoldable pub decode_batch_forget_count_in : Bytes → BatchForgetCountIn
decode_batch_forget_count_in b = record { count = field batch_forget_count_in 0 b }

pub record BatchForgetEntryIn : Type 0 where
  pub inode : ℕ  -- int64
  pub nlookup : ℕ  -- uint64

abbrev pub batch_forget_entry_in : List ℕ
batch_forget_entry_in = 8 ∷ 8 ∷ []

unfoldable pub decode_batch_forget_entry_in : Bytes → BatchForgetEntryIn
decode_batch_forget_entry_in b = record {
  inode = field batch_forget_entry_in 0 b;
  nlookup = field batch_forget_entry_in 1 b;
}

pub record InterruptIn : Type 0 where
  pub unique : ℕ  -- uint64

abbrev pub interrupt_in : List ℕ
interrupt_in = 8 ∷ []

unfoldable pub decode_interrupt_in : Bytes → InterruptIn
decode_interrupt_in b = record { unique = field interrupt_in 0 b }

pub record InitIn : Type 0 where
  pub major : ℕ  -- uint32
  pub minor : ℕ  -- uint32
  pub max_readahead : ℕ  -- uint32
  pub flags : ℕ  -- uint32

abbrev pub init_in : List ℕ
init_in = 4 ∷ 4 ∷ 4 ∷ 4 ∷ []

unfoldable pub decode_init_in : Bytes → InitIn
decode_init_in b = record {
  major = field init_in 0 b;
  minor = field init_in 1 b;
  max_readahead = field init_in 2 b;
  flags = field init_in 3 b;
}

pub record SyncFsIn : Type 0 where

abbrev pub sync_fs_in : List ℕ
sync_fs_in = 8 ∷ []

unfoldable pub decode_sync_fs_in : Bytes → SyncFsIn
decode_sync_fs_in b = record {}
