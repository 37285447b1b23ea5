-- ===== src/Fuseops/Internal.antt =====
-- ops.go: the ops that no file system sees. A `fusekernel.InitFlags` is the set of its bits: a test of
-- the bit with a number.
use fuse.Base.{ℕ, Bool}
use fuse.Kernel.Protocol.{Protocol}

pub record UnknownOp : Type 0 where
  pub op_code : ℕ  -- uint32
  pub inode : ℕ

pub record InterruptOp : Type 0 where
  pub fuse_id : ℕ  -- uint64

abbrev pub InitFlags : Type 0
InitFlags = ℕ → Bool

pub record InitOp : Type 0 where
  pub kernel : Protocol
  pub flags : InitFlags
  pub library : Protocol
  pub max_readahead : ℕ  -- uint32
  pub max_background : ℕ  -- uint16
  pub max_write : ℕ  -- uint32
  pub max_pages : ℕ  -- uint16
