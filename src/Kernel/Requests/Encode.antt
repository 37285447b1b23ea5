-- ===== src/Kernel/Requests/Encode.antt =====
-- internal/fusekernel/fuse_kernel.go: the kernel's side of the structures of requests: their values as
-- they are laid out, with zeros for padding.
use fuse.Base.{ℕ, ◌≡◌, List, [], ◌∷◌}
use fuse.Kernel.Layout.{pack, IsPacked, field-IsPacked}
use fuse.Kernel.Requests.Names.{
  MkdirIn, decode_mkdir_in, MknodIn, decode_mknod_in, CreateIn, decode_create_in, RenameIn,
  decode_rename_in, LinkIn, decode_link_in, ForgetIn, decode_forget_in, BatchForgetCountIn,
  decode_batch_forget_count_in, BatchForgetEntryIn, decode_batch_forget_entry_in, InterruptIn,
  decode_interrupt_in, InitIn, decode_init_in,
}
use fuse.Kernel.Requests.Files.{
  SetattrIn, decode_setattr_in, OpenIn, decode_open_in, ReadIn, decode_read_in, WriteIn,
  decode_write_in, ReleaseIn, decode_release_in, FlushIn, decode_flush_in, FsyncIn, decode_fsync_in,
  FallocateIn, decode_fallocate_in, GetattrIn, GetxattrIn, decode_getxattr_in, ListxattrIn,
  decode_listxattr_in, SetxattrIn, decode_setxattr_in,
}

abbrev pub mkdir_in_fields : MkdirIn → List (ℕ × ℕ)
mkdir_in_fields s = (4, s.mode) ∷ (4, s.umask) ∷ []

pub decode_mkdir_in-pack :
    (s : MkdirIn) → IsPacked (mkdir_in_fields s) → decode_mkdir_in (pack (mkdir_in_fields s)) ≡ s
unfolding decode_mkdir_in
decode_mkdir_in-pack s h = λ i. record {
  mode = field-IsPacked (mkdir_in_fields s) 0 h i;
  umask = field-IsPacked (mkdir_in_fields s) 1 h i;
}

abbrev pub mknod_in_fields : MknodIn → List (ℕ × ℕ)
mknod_in_fields s = (4, s.mode) ∷ (4, s.rdev) ∷ (4, s.umask) ∷ (4, 0) ∷ []

pub decode_mknod_in-pack :
    (s : MknodIn) → IsPacked (mknod_in_fields s) → decode_mknod_in (pack (mknod_in_fields s)) ≡ s
unfolding decode_mknod_in
decode_mknod_in-pack s h = λ i. record {
  mode = field-IsPacked (mknod_in_fields s) 0 h i;
  rdev = field-IsPacked (mknod_in_fields s) 1 h i;
  umask = field-IsPacked (mknod_in_fields s) 2 h i;
}

abbrev pub create_in_fields : CreateIn → List (ℕ × ℕ)
create_in_fields s = (4, s.flags) ∷ (4, s.mode) ∷ (4, s.umask) ∷ (4, 0) ∷ []

pub decode_create_in-pack :
    (s : CreateIn)
    → IsPacked (create_in_fields s)
    → decode_create_in (pack (create_in_fields s)) ≡ s
unfolding decode_create_in
decode_create_in-pack s h = λ i. record {
  flags = field-IsPacked (create_in_fields s) 0 h i;
  mode = field-IsPacked (create_in_fields s) 1 h i;
  umask = field-IsPacked (create_in_fields s) 2 h i;
}

abbrev pub rename_in_fields : RenameIn → List (ℕ × ℕ)
rename_in_fields s = (8, s.newdir) ∷ []

pub decode_rename_in-pack :
    (s : RenameIn)
    → IsPacked (rename_in_fields s)
    → decode_rename_in (pack (rename_in_fields s)) ≡ s
unfolding decode_rename_in
decode_rename_in-pack s h = λ i. record { newdir = field-IsPacked (rename_in_fields s) 0 h i }

abbrev pub link_in_fields : LinkIn → List (ℕ × ℕ)
link_in_fields s = (8, s.oldnodeid) ∷ []

pub decode_link_in-pack :
    (s : LinkIn) → IsPacked (link_in_fields s) → decode_link_in (pack (link_in_fields s)) ≡ s
unfolding decode_link_in
decode_link_in-pack s h = λ i. record { oldnodeid = field-IsPacked (link_in_fields s) 0 h i }

abbrev pub forget_in_fields : ForgetIn → List (ℕ × ℕ)
forget_in_fields s = (8, s.nlookup) ∷ []

pub decode_forget_in-pack :
    (s : ForgetIn)
    → IsPacked (forget_in_fields s)
    → decode_forget_in (pack (forget_in_fields s)) ≡ s
unfolding decode_forget_in
decode_forget_in-pack s h = λ i. record { nlookup = field-IsPacked (forget_in_fields s) 0 h i }

abbrev pub batch_forget_count_in_fields : BatchForgetCountIn → List (ℕ × ℕ)
batch_forget_count_in_fields s = (4, s.count) ∷ (4, 0) ∷ []

pub decode_batch_forget_count_in-pack :
    (s : BatchForgetCountIn)
    → IsPacked (batch_forget_count_in_fields s)
    → decode_batch_forget_count_in (pack (batch_forget_count_in_fields s)) ≡ s
unfolding decode_batch_forget_count_in
decode_batch_forget_count_in-pack s h =
    λ i. record { count = field-IsPacked (batch_forget_count_in_fields s) 0 h i }

abbrev pub batch_forget_entry_in_fields : BatchForgetEntryIn → List (ℕ × ℕ)
batch_forget_entry_in_fields s = (8, s.inode) ∷ (8, s.nlookup) ∷ []

pub decode_batch_forget_entry_in-pack :
    (s : BatchForgetEntryIn)
    → IsPacked (batch_forget_entry_in_fields s)
    → decode_batch_forget_entry_in (pack (batch_forget_entry_in_fields s)) ≡ s
unfolding decode_batch_forget_entry_in
decode_batch_forget_entry_in-pack s h = λ i. record {
  inode = field-IsPacked (batch_forget_entry_in_fields s) 0 h i;
  nlookup = field-IsPacked (batch_forget_entry_in_fields s) 1 h i;
}

abbrev pub interrupt_in_fields : InterruptIn → List (ℕ × ℕ)
interrupt_in_fields s = (8, s.unique) ∷ []

pub decode_interrupt_in-pack :
    (s : InterruptIn)
    → IsPacked (interrupt_in_fields s)
    → decode_interrupt_in (pack (interrupt_in_fields s)) ≡ s
unfolding decode_interrupt_in
decode_interrupt_in-pack s h = λ i. record { unique = field-IsPacked (interrupt_in_fields s) 0 h i }

abbrev pub init_in_fields : InitIn → List (ℕ × ℕ)
init_in_fields s = (4, s.major) ∷ (4, s.minor) ∷ (4, s.max_readahead) ∷ (4, s.flags) ∷ []

pub decode_init_in-pack :
    (s : InitIn) → IsPacked (init_in_fields s) → decode_init_in (pack (init_in_fields s)) ≡ s
unfolding decode_init_in
decode_init_in-pack s h = λ i. record {
  major = field-IsPacked (init_in_fields s) 0 h i;
  minor = field-IsPacked (init_in_fields s) 1 h i;
  max_readahead = field-IsPacked (init_in_fields s) 2 h i;
  flags = field-IsPacked (init_in_fields s) 3 h i;
}

abbrev pub setattr_in_fields : SetattrIn → List (ℕ × ℕ)
setattr_in_fields s =
    (4, s.valid)
    ∷ (4, 0)
    ∷ (8, s.fh)
    ∷ (8, s.size)
    ∷ (8, s.lock_owner)
    ∷ (8, s.atime)
    ∷ (8, s.mtime)
    ∷ (8, 0)
    ∷ (4, s.atime_nsec)
    ∷ (4, s.mtime_nsec)
    ∷ (4, 0)
    ∷ (4, s.mode)
    ∷ (4, 0)
    ∷ (4, s.uid)
    ∷ (4, s.gid)
    ∷ (4, 0)
    ∷ []

pub decode_setattr_in-pack :
    (s : SetattrIn)
    → IsPacked (setattr_in_fields s)
    → decode_setattr_in (pack (setattr_in_fields s)) ≡ s
unfolding decode_setattr_in
decode_setattr_in-pack s h = λ i. record {
  valid = field-IsPacked (setattr_in_fields s) 0 h i;
  fh = field-IsPacked (setattr_in_fields s) 2 h i;
  size = field-IsPacked (setattr_in_fields s) 3 h i;
  lock_owner = field-IsPacked (setattr_in_fields s) 4 h i;
  atime = field-IsPacked (setattr_in_fields s) 5 h i;
  mtime = field-IsPacked (setattr_in_fields s) 6 h i;
  atime_nsec = field-IsPacked (setattr_in_fields s) 8 h i;
  mtime_nsec = field-IsPacked (setattr_in_fields s) 9 h i;
  mode = field-IsPacked (setattr_in_fields s) 11 h i;
  uid = field-IsPacked (setattr_in_fields s) 13 h i;
  gid = field-IsPacked (setattr_in_fields s) 14 h i;
}

abbrev pub open_in_fields : OpenIn → List (ℕ × ℕ)
open_in_fields s = (4, s.flags) ∷ (4, 0) ∷ []

pub decode_open_in-pack :
    (s : OpenIn) → IsPacked (open_in_fields s) → decode_open_in (pack (open_in_fields s)) ≡ s
unfolding decode_open_in
decode_open_in-pack s h = λ i. record { flags = field-IsPacked (open_in_fields s) 0 h i }

abbrev pub read_in_fields : ReadIn → List (ℕ × ℕ)
read_in_fields s =
    (8, s.fh)
    ∷ (8, s.offset)
    ∷ (4, s.size)
    ∷ (4, s.read_flags)
    ∷ (8, s.lock_owner)
    ∷ (4, s.flags)
    ∷ (4, 0)
    ∷ []

pub decode_read_in-pack :
    (s : ReadIn) → IsPacked (read_in_fields s) → decode_read_in (pack (read_in_fields s)) ≡ s
unfolding decode_read_in
decode_read_in-pack s h = λ i. record {
  fh = field-IsPacked (read_in_fields s) 0 h i;
  offset = field-IsPacked (read_in_fields s) 1 h i;
  size = field-IsPacked (read_in_fields s) 2 h i;
  read_flags = field-IsPacked (read_in_fields s) 3 h i;
  lock_owner = field-IsPacked (read_in_fields s) 4 h i;
  flags = field-IsPacked (read_in_fields s) 5 h i;
}

abbrev pub write_in_fields : WriteIn → List (ℕ × ℕ)
write_in_fields s =
    (8, s.fh)
    ∷ (8, s.offset)
    ∷ (4, s.size)
    ∷ (4, s.write_flags)
    ∷ (8, s.lock_owner)
    ∷ (4, s.flags)
    ∷ (4, 0)
    ∷ []

pub decode_write_in-pack :
    (s : WriteIn) → IsPacked (write_in_fields s) → decode_write_in (pack (write_in_fields s)) ≡ s
unfolding decode_write_in
decode_write_in-pack s h = λ i. record {
  fh = field-IsPacked (write_in_fields s) 0 h i;
  offset = field-IsPacked (write_in_fields s) 1 h i;
  size = field-IsPacked (write_in_fields s) 2 h i;
  write_flags = field-IsPacked (write_in_fields s) 3 h i;
  lock_owner = field-IsPacked (write_in_fields s) 4 h i;
  flags = field-IsPacked (write_in_fields s) 5 h i;
}

abbrev pub release_in_fields : ReleaseIn → List (ℕ × ℕ)
release_in_fields s =
    (8, s.fh) ∷ (4, s.flags) ∷ (4, s.release_flags) ∷ (4, s.lock_owner) ∷ (4, 0) ∷ []

pub decode_release_in-pack :
    (s : ReleaseIn)
    → IsPacked (release_in_fields s)
    → decode_release_in (pack (release_in_fields s)) ≡ s
unfolding decode_release_in
decode_release_in-pack s h = λ i. record {
  fh = field-IsPacked (release_in_fields s) 0 h i;
  flags = field-IsPacked (release_in_fields s) 1 h i;
  release_flags = field-IsPacked (release_in_fields s) 2 h i;
  lock_owner = field-IsPacked (release_in_fields s) 3 h i;
}

abbrev pub flush_in_fields : FlushIn → List (ℕ × ℕ)
flush_in_fields s = (8, s.fh) ∷ (4, s.flush_flags) ∷ (4, 0) ∷ (8, s.lock_owner) ∷ []

pub decode_flush_in-pack :
    (s : FlushIn) → IsPacked (flush_in_fields s) → decode_flush_in (pack (flush_in_fields s)) ≡ s
unfolding decode_flush_in
decode_flush_in-pack s h = λ i. record {
  fh = field-IsPacked (flush_in_fields s) 0 h i;
  flush_flags = field-IsPacked (flush_in_fields s) 1 h i;
  lock_owner = field-IsPacked (flush_in_fields s) 3 h i;
}

abbrev pub fsync_in_fields : FsyncIn → List (ℕ × ℕ)
fsync_in_fields s = (8, s.fh) ∷ (4, s.fsync_flags) ∷ (4, 0) ∷ []

pub decode_fsync_in-pack :
    (s : FsyncIn) → IsPacked (fsync_in_fields s) → decode_fsync_in (pack (fsync_in_fields s)) ≡ s
unfolding decode_fsync_in
decode_fsync_in-pack s h = λ i. record {
  fh = field-IsPacked (fsync_in_fields s) 0 h i;
  fsync_flags = field-IsPacked (fsync_in_fields s) 1 h i;
}

abbrev pub fallocate_in_fields : FallocateIn → List (ℕ × ℕ)
fallocate_in_fields s = (8, s.fh) ∷ (8, s.offset) ∷ (8, s.length) ∷ (4, s.mode) ∷ (4, 0) ∷ []

pub decode_fallocate_in-pack :
    (s : FallocateIn)
    → IsPacked (fallocate_in_fields s)
    → decode_fallocate_in (pack (fallocate_in_fields s)) ≡ s
unfolding decode_fallocate_in
decode_fallocate_in-pack s h = λ i. record {
  fh = field-IsPacked (fallocate_in_fields s) 0 h i;
  offset = field-IsPacked (fallocate_in_fields s) 1 h i;
  length = field-IsPacked (fallocate_in_fields s) 2 h i;
  mode = field-IsPacked (fallocate_in_fields s) 3 h i;
}

abbrev pub getattr_in_fields : GetattrIn → List (ℕ × ℕ)
getattr_in_fields s = (4, s.getattr_flags) ∷ (4, 0) ∷ (8, s.fh) ∷ []

abbrev pub getxattr_in_fields : GetxattrIn → List (ℕ × ℕ)
getxattr_in_fields s = (4, s.size) ∷ (4, 0) ∷ []

pub decode_getxattr_in-pack :
    (s : GetxattrIn)
    → IsPacked (getxattr_in_fields s)
    → decode_getxattr_in (pack (getxattr_in_fields s)) ≡ s
unfolding decode_getxattr_in
decode_getxattr_in-pack s h = λ i. record { size = field-IsPacked (getxattr_in_fields s) 0 h i }

abbrev pub listxattr_in_fields : ListxattrIn → List (ℕ × ℕ)
listxattr_in_fields s = (4, s.size) ∷ (4, 0) ∷ []

pub decode_listxattr_in-pack :
    (s : ListxattrIn)
    → IsPacked (listxattr_in_fields s)
    → decode_listxattr_in (pack (listxattr_in_fields s)) ≡ s
unfolding decode_listxattr_in
decode_listxattr_in-pack s h = λ i. record { size = field-IsPacked (listxattr_in_fields s) 0 h i }

abbrev pub setxattr_in_fields : SetxattrIn → List (ℕ × ℕ)
setxattr_in_fields s = (4, s.size) ∷ (4, s.flags) ∷ []

pub decode_setxattr_in-pack :
    (s : SetxattrIn)
    → IsPacked (setxattr_in_fields s)
    → decode_setxattr_in (pack (setxattr_in_fields s)) ≡ s
unfolding decode_setxattr_in
decode_setxattr_in-pack s h = λ i. record {
  size = field-IsPacked (setxattr_in_fields s) 0 h i;
  flags = field-IsPacked (setxattr_in_fields s) 1 h i;
}
