-- ===== src/Fuseops/Files.antt =====
-- fuseops/ops.go: the ops on open files and directories. `Data` is called `payload`.
use fuse.Base.{ℕ, Bool, Option, List, Bytes.{Bytes}}
use fuse.Fuseops.Types.{OpContext, Buffer}

pub record OpenDirOp : Type 0 where
  pub inode : ℕ
  pub handle : ℕ
  pub op_context : OpContext
  pub cache_dir : Bool
  pub keep_cache : Bool

pub record ReadDirOp : Type 0 where
  pub inode : ℕ
  pub handle : ℕ
  pub offset : ℕ
  pub dst : Buffer
  pub bytes_read : ℕ  -- int
  pub op_context : OpContext

pub record ReleaseDirHandleOp : Type 0 where
  pub handle : ℕ
  pub op_context : OpContext

pub record OpenFileOp : Type 0 where
  pub inode : ℕ
  pub handle : ℕ
  pub keep_page_cache : Bool
  pub use_direct_io : Bool
  pub open_flags : ℕ
  pub op_context : OpContext

pub record ReadFileOp : Type 0 where
  pub inode : ℕ
  pub handle : ℕ
  pub offset : ℕ  -- int64
  pub size : ℕ  -- int64
  pub dst : Buffer
  pub payload : List Bytes
  pub bytes_read : ℕ  -- int
  pub op_context : OpContext
  pub callback : Option ℕ

pub record WriteFileOp : Type 0 where
  pub inode : ℕ
  pub handle : ℕ
  pub offset : ℕ  -- int64
  pub payload : Bytes
  pub op_context : OpContext
  pub callback : Option ℕ

pub record SyncFileOp : Type 0 where
  pub inode : ℕ
  pub handle : ℕ
  pub op_context : OpContext

pub record FlushFileOp : Type 0 where
  pub inode : ℕ
  pub handle : ℕ
  pub op_context : OpContext

pub record ReleaseFileHandleOp : Type 0 where
  pub handle : ℕ
  pub op_context : OpContext

pub record FallocateOp : Type 0 where
  pub inode : ℕ
  pub handle : ℕ
  pub offset : ℕ  -- uint64
  pub length : ℕ  -- uint64
  pub mode : ℕ  -- uint32
  pub op_context : OpContext
