-- ===== src/Fuseops/Xattrs.antt =====
-- fuseops/ops.go: the ops on extended attributes.
use fuse.Base.{ℕ, Bytes.{Bytes}}
use fuse.Fuseops.Types.{OpContext, Buffer}

pub record RemoveXattrOp : Type 0 where
  pub inode : ℕ
  pub name : Bytes
  pub op_context : OpContext

pub record GetXattrOp : Type 0 where
  pub inode : ℕ
  pub name : Bytes
  pub dst : Buffer
  pub bytes_read : ℕ  -- int
  pub op_context : OpContext

pub record ListXattrOp : Type 0 where
  pub inode : ℕ
  pub dst : Buffer
  pub bytes_read : ℕ  -- int
  pub op_context : OpContext

pub record SetXattrOp : Type 0 where
  pub inode : ℕ
  pub name : Bytes
  pub value : Bytes
  pub flags : ℕ  -- uint32
  pub op_context : OpContext
