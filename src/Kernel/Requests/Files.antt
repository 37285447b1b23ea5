-- ===== src/Kernel/Requests/Files.antt =====
-- internal/fusekernel/fuse_kernel.go: the structures of requests on files, and of attributes, by the widths of their fields.
use fuse.Base.{ℕ, List, [], ◌∷◌, Bytes.{Bytes}}
use fuse.Kernel.Layout.{field}

pub record SetattrIn : Type 0 where
  pub valid : ℕ  -- uint32
  pub fh : ℕ  -- uint64
  pub size : ℕ  -- uint64
  pub lock_owner : ℕ  -- uint64
  pub atime : ℕ  -- uint64
  pub mtime : ℕ  -- uint64
  pub atime_nsec : ℕ  -- uint32
  pub mtime_nsec : ℕ  -- uint32
  pub mode : ℕ  -- uint32
  pub uid : ℕ  -- uint32
  pub gid : ℕ  -- uint32

abbrev pub setattr_in : List ℕ
setattr_in = 4 ∷ 4 ∷ 8 ∷ 8 ∷ 8 ∷ 8 ∷ 8 ∷ 8 ∷ 4 ∷ 4 ∷ 4 ∷ 4 ∷ 4 ∷ 4 ∷ 4 ∷ 4 ∷ []

unfoldable pub decode_setattr_in : Bytes → SetattrIn
decode_setattr_in b = record {
  valid = field setattr_in 0 b;
  fh = field setattr_in 2 b;
  size = field setattr_in 3 b;
  lock_owner = field setattr_in 4 b;
  atime = field setattr_in 5 b;
  mtime = field setattr_in 6 b;
  atime_nsec = field setattr_in 8 b;
  mtime_nsec = field setattr_in 9 b;
  mode = field setattr_in 11 b;
  uid = field setattr_in 13 b;
  gid = field setattr_in 14 b;
}

pub record OpenIn : Type 0 where
  pub flags : ℕ  -- uint32

abbrev pub open_in : List ℕ
open_in = 4 ∷ 4 ∷ []

unfoldable pub decode_open_in : Bytes → OpenIn
decode_open_in b = record { flags = field open_in 0 b }

pub record ReadIn : Type 0 where
  pub fh : ℕ  -- uint64
  pub offset : ℕ  -- uint64
  pub size : ℕ  -- uint32
  pub read_flags : ℕ  -- uint32
  pub lock_owner : ℕ  -- uint64
  pub flags : ℕ  -- uint32

abbrev pub read_in : List ℕ
read_in = 8 ∷ 8 ∷ 4 ∷ 4 ∷ 8 ∷ 4 ∷ 4 ∷ []

unfoldable pub decode_read_in : Bytes → ReadIn
decode_read_in b = record {
  fh = field read_in 0 b;
  offset = field read_in 1 b;
  size = field read_in 2 b;
  read_flags = field read_in 3 b;
  lock_owner = field read_in 4 b;
  flags = field read_in 5 b;
}

pub record WriteIn : Type 0 where
  pub fh : ℕ  -- uint64
  pub offset : ℕ  -- uint64
  pub size : ℕ  -- uint32
  pub write_flags : ℕ  -- uint32
  pub lock_owner : ℕ  -- uint64
  pub flags : ℕ  -- uint32

abbrev pub write_in : List ℕ
write_in = 8 ∷ 8 ∷ 4 ∷ 4 ∷ 8 ∷ 4 ∷ 4 ∷ []

unfoldable pub decode_write_in : Bytes → WriteIn
decode_write_in b = record {
  fh = field write_in 0 b;
  offset = field write_in 1 b;
  size = field write_in 2 b;
  write_flags = field write_in 3 b;
  lock_owner = field write_in 4 b;
  flags = field write_in 5 b;
}

pub record ReleaseIn : Type 0 where
  pub fh : ℕ  -- uint64
  pub flags : ℕ  -- uint32
  pub release_flags : ℕ  -- uint32
  pub lock_owner : ℕ  -- uint32

abbrev pub release_in : List ℕ
release_in = 8 ∷ 4 ∷ 4 ∷ 4 ∷ 4 ∷ []

unfoldable pub decode_release_in : Bytes → ReleaseIn
decode_release_in b = record {
  fh = field release_in 0 b;
  flags = field release_in 1 b;
  release_flags = field release_in 2 b;
  lock_owner = field release_in 3 b;
}

pub record FlushIn : Type 0 where
  pub fh : ℕ  -- uint64
  pub flush_flags : ℕ  -- uint32
  pub lock_owner : ℕ  -- uint64

abbrev pub flush_in : List ℕ
flush_in = 8 ∷ 4 ∷ 4 ∷ 8 ∷ []

unfoldable pub decode_flush_in : Bytes → FlushIn
decode_flush_in b = record {
  fh = field flush_in 0 b;
  flush_flags = field flush_in 1 b;
  lock_owner = field flush_in 3 b;
}

pub record FsyncIn : Type 0 where
  pub fh : ℕ  -- uint64
  pub fsync_flags : ℕ  -- uint32

abbrev pub fsync_in : List ℕ
fsync_in = 8 ∷ 4 ∷ 4 ∷ []

unfoldable pub decode_fsync_in : Bytes → FsyncIn
decode_fsync_in b = record { fh = field fsync_in 0 b; fsync_flags = field fsync_in 1 b }

pub record FallocateIn : Type 0 where
  pub fh : ℕ  -- uint64
  pub offset : ℕ  -- uint64
  pub length : ℕ  -- uint64
  pub mode : ℕ  -- uint32

abbrev pub fallocate_in : List ℕ
fallocate_in = 8 ∷ 8 ∷ 8 ∷ 4 ∷ 4 ∷ []

unfoldable pub decode_fallocate_in : Bytes → FallocateIn
decode_fallocate_in b = record {
  fh = field fallocate_in 0 b;
  offset = field fallocate_in 1 b;
  length = field fallocate_in 2 b;
  mode = field fallocate_in 3 b;
}

-- `convertInMessage` does not read it.
pub record GetattrIn : Type 0 where
  pub getattr_flags : ℕ  -- uint32
  pub fh : ℕ  -- uint64

pub record GetxattrIn : Type 0 where
  pub size : ℕ  -- uint32

abbrev pub getxattr_in : List ℕ
getxattr_in = 4 ∷ 4 ∷ []

unfoldable pub decode_getxattr_in : Bytes → GetxattrIn
decode_getxattr_in b = record { size = field getxattr_in 0 b }

pub record ListxattrIn : Type 0 where
  pub size : ℕ  -- uint32

abbrev pub listxattr_in : List ℕ
listxattr_in = 4 ∷ 4 ∷ []

unfoldable pub decode_listxattr_in : Bytes → ListxattrIn
decode_listxattr_in b = record { size = field listxattr_in 0 b }

pub record SetxattrIn : Type 0 where
  pub size : ℕ  -- uint32
  pub flags : ℕ  -- uint32

abbrev pub setxattr_in : List ℕ
setxattr_in = 4 ∷ 4 ∷ []

unfoldable pub decode_setxattr_in : Bytes → SetxattrIn
decode_setxattr_in b = record { size = field setxattr_in 0 b; flags = field setxattr_in 1 b }
