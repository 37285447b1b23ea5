-- ===== src/Fuseops/Inodes.antt =====
-- fuseops/ops.go: the ops on file systems and inodes.
use fuse.Base.{ℕ, Option, List, Bytes.{Bytes}}
use fuse.Fuseops.Types.{OpContext, Attributes, ChildInodeEntry}

pub record StatFsOp : Type 0 where
  pub block_size : ℕ  -- uint32
  pub blocks : ℕ  -- uint64
  pub blocks_free : ℕ  -- uint64
  pub blocks_available : ℕ  -- uint64
  pub io_size : ℕ  -- uint32
  pub inodes : ℕ  -- uint64
  pub inodes_free : ℕ  -- uint64

pub record SyncFsOp : Type 0 where
  pub inode : ℕ
  pub op_context : OpContext

pub record LookUpInodeOp : Type 0 where
  pub parent : ℕ
  pub name : Bytes
  pub entry : ChildInodeEntry
  pub op_context : OpContext

pub record GetInodeAttributesOp : Type 0 where
  pub inode : ℕ
  pub attributes : Attributes
  pub attributes_expiration : ℕ
  pub op_context : OpContext

pub record SetInodeAttributesOp : Type 0 where
  pub inode : ℕ
  pub handle : Option ℕ
  pub uid : Option ℕ
  pub gid : Option ℕ
  pub size : Option ℕ
  pub mode : Option ℕ
  pub atime : Option (ℕ × ℕ)
  pub mtime : Option (ℕ × ℕ)
  pub attributes : Attributes
  pub attributes_expiration : ℕ
  pub op_context : OpContext

pub record ForgetInodeOp : Type 0 where
  pub inode : ℕ
  pub n : ℕ  -- uint64
  pub op_context : OpContext

pub record BatchForgetEntry : Type 0 where
  pub inode : ℕ
  pub n : ℕ  -- uint64

pub record BatchForgetOp : Type 0 where
  pub entries : List BatchForgetEntry
  pub op_context : OpContext

pub record ReadSymlinkOp : Type 0 where
  pub inode : ℕ
  pub target : Bytes
  pub op_context : OpContext
