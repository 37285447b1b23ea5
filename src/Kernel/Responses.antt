-- ===== src/Kernel/Responses.antt =====
-- internal/fusekernel/fuse_kernel.go and fuse_kernel_linux.go: the structures of replies, with their
-- fields as they are laid out, padding included. A `StatfsOut` is a `Kstatfs`.
use fuse.Base.{ℕ, ◌+◌, List, [], ◌∷◌, if◌then◌else◌}
use fuse.Kernel.Protocol.{Protocol, version, lt}

pub record Attr : Type 0 where
  pub ino : ℕ  -- uint64
  pub size : ℕ  -- uint64
  pub blocks : ℕ  -- uint64
  pub atime : ℕ  -- uint64
  pub mtime : ℕ  -- uint64
  pub ctime : ℕ  -- uint64
  pub atime_nsec : ℕ  -- uint32
  pub mtime_nsec : ℕ  -- uint32
  pub ctime_nsec : ℕ  -- uint32
  pub mode : ℕ  -- uint32
  pub nlink : ℕ  -- uint32
  pub uid : ℕ  -- uint32
  pub gid : ℕ  -- uint32
  pub rdev : ℕ  -- uint32
  pub blksize : ℕ  -- uint32

abbrev pub attr_fields : Attr → List (ℕ × ℕ)
attr_fields s =
    (8, s.ino)
    ∷ (8, s.size)
    ∷ (8, s.blocks)
    ∷ (8, s.atime)
    ∷ (8, s.mtime)
    ∷ (8, s.ctime)
    ∷ (4, s.atime_nsec)
    ∷ (4, s.mtime_nsec)
    ∷ (4, s.ctime_nsec)
    ∷ (4, s.mode)
    ∷ (4, s.nlink)
    ∷ (4, s.uid)
    ∷ (4, s.gid)
    ∷ (4, s.rdev)
    ∷ (4, s.blksize)
    ∷ (4, 0)
    ∷ []

pub record EntryOut : Type 0 where
  pub nodeid : ℕ  -- uint64
  pub generation : ℕ  -- uint64
  pub entry_valid : ℕ  -- uint64
  pub attr_valid : ℕ  -- uint64
  pub entry_valid_nsec : ℕ  -- uint32
  pub attr_valid_nsec : ℕ  -- uint32
  pub attr : Attr

abbrev pub entry_out_fields : EntryOut → List (ℕ × ℕ)
entry_out_fields s =
    (8, s.nodeid)
    ∷ (8, s.generation)
    ∷ (8, s.entry_valid)
    ∷ (8, s.attr_valid)
    ∷ (4, s.entry_valid_nsec)
    ∷ (4, s.attr_valid_nsec)
    ∷ attr_fields s.attr

pub record AttrOut : Type 0 where
  pub attr_valid : ℕ  -- uint64
  pub attr_valid_nsec : ℕ  -- uint32
  pub attr : Attr

abbrev pub attr_out_fields : AttrOut → List (ℕ × ℕ)
attr_out_fields s = (8, s.attr_valid) ∷ (4, s.attr_valid_nsec) ∷ (4, 0) ∷ attr_fields s.attr

pub record OpenOut : Type 0 where
  pub fh : ℕ  -- uint64
  pub open_flags : ℕ  -- uint32

abbrev pub open_out_fields : OpenOut → List (ℕ × ℕ)
open_out_fields s = (8, s.fh) ∷ (4, s.open_flags) ∷ (4, 0) ∷ []

pub record WriteOut : Type 0 where
  pub size : ℕ  -- uint32

abbrev pub write_out_fields : WriteOut → List (ℕ × ℕ)
write_out_fields s = (4, s.size) ∷ (4, 0) ∷ []

pub record Kstatfs : Type 0 where
  pub blocks : ℕ  -- uint64
  pub bfree : ℕ  -- uint64
  pub bavail : ℕ  -- uint64
  pub files : ℕ  -- uint64
  pub ffree : ℕ  -- uint64
  pub bsize : ℕ  -- uint32
  pub namelen : ℕ  -- uint32
  pub frsize : ℕ  -- uint32

abbrev pub kstatfs_fields : Kstatfs → List (ℕ × ℕ)
kstatfs_fields s =
    (8, s.blocks)
    ∷ (8, s.bfree)
    ∷ (8, s.bavail)
    ∷ (8, s.files)
    ∷ (8, s.ffree)
    ∷ (4, s.bsize)
    ∷ (4, s.namelen)
    ∷ (4, s.frsize)
    ∷ (4, 0)
    ∷ (24, 0)
    ∷ []

pub record GetxattrOut : Type 0 where
  pub size : ℕ  -- uint32

abbrev pub getxattr_out_fields : GetxattrOut → List (ℕ × ℕ)
getxattr_out_fields s = (4, s.size) ∷ (4, 0) ∷ []

pub record InitOut : Type 0 where
  pub major : ℕ  -- uint32
  pub minor : ℕ  -- uint32
  pub max_readahead : ℕ  -- uint32
  pub flags : ℕ  -- uint32
  pub max_background : ℕ  -- uint16
  pub congestion_threshold : ℕ  -- uint16
  pub max_write : ℕ  -- uint32
  pub time_gran : ℕ  -- uint32
  pub max_pages : ℕ  -- uint16
  pub map_alignment : ℕ  -- uint16

abbrev pub init_out_fields : InitOut → List (ℕ × ℕ)
init_out_fields s =
    (4, s.major)
    ∷ (4, s.minor)
    ∷ (4, s.max_readahead)
    ∷ (4, s.flags)
    ∷ (2, s.max_background)
    ∷ (2, s.congestion_threshold)
    ∷ (4, s.max_write)
    ∷ (4, s.time_gran)
    ∷ (2, s.max_pages)
    ∷ (2, s.map_alignment)
    ∷ (32, 0)
    ∷ []

-- The offset of `Blksize` in `Attr`.
abbrev pub blksize_offset : ℕ
blksize_offset = 80

abbrev pub attr_size : ℕ
attr_size = 88

unfoldable pub entry_out_size : Protocol → ℕ
unfolding lt
entry_out_size p = if lt p (version 7 9) then 40 + blksize_offset else 40 + attr_size

unfoldable pub attr_out_size : Protocol → ℕ
unfolding lt
attr_out_size p = if lt p (version 7 9) then 16 + blksize_offset else 16 + attr_size
