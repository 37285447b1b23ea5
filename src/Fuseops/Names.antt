-- ===== src/Fuseops/Names.antt =====
-- fuseops/ops.go: the ops that make, move and remove names.
use fuse.Base.{ℕ, Bytes.{Bytes}}
use fuse.Fuseops.Types.{OpContext, ChildInodeEntry}

pub record MkDirOp : Type 0 where
  pub parent : ℕ
  pub name : Bytes
  pub mode : ℕ  -- os.FileMode
  pub entry : ChildInodeEntry
  pub op_context : OpContext

pub record MkNodeOp : Type 0 where
  pub parent : ℕ
  pub name : Bytes
  pub mode : ℕ  -- os.FileMode
  pub rdev : ℕ  -- uint32
  pub entry : ChildInodeEntry
  pub op_context : OpContext

pub record CreateFileOp : Type 0 where
  pub parent : ℕ
  pub name : Bytes
  pub mode : ℕ  -- os.FileMode
  pub entry : ChildInodeEntry
  pub handle : ℕ
  pub op_context : OpContext

pub record CreateSymlinkOp : Type 0 where
  pub parent : ℕ
  pub name : Bytes
  pub target : Bytes
  pub entry : ChildInodeEntry
  pub op_context : OpContext

pub record CreateLinkOp : Type 0 where
  pub parent : ℕ
  pub name : Bytes
  pub target : ℕ
  pub entry : ChildInodeEntry
  pub op_context : OpContext

pub record RenameOp : Type 0 where
  pub old_parent : ℕ
  pub old_name : Bytes
  pub new_parent : ℕ
  pub new_name : Bytes
  pub op_context : OpContext

pub record RmDirOp : Type 0 where
  pub parent : ℕ
  pub name : Bytes
  pub op_context : OpContext

pub record UnlinkOp : Type 0 where
  pub parent : ℕ
  pub name : Bytes
  pub op_context : OpContext
