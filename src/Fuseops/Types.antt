-- ===== src/Fuseops/Types.antt =====
-- fuseops/simple_types.go and `OpContext` of fuseops/ops.go: what the ops are made of. An ID is a
-- number, and a time is the number that its `UnixNano` gives, which is mostly only stored.
use fuse.Base.{ℕ}
use fuse.Buffer.InMessage.{Slice}

-- `fuseops.InodeAttributes`
pub record Attributes : Type 0 where
  pub size : ℕ  -- uint64
  pub nlink : ℕ  -- uint32
  pub mode : ℕ  -- os.FileMode, a uint32
  pub rdev : ℕ  -- uint32
  pub atime : ℕ
  pub mtime : ℕ
  pub ctime : ℕ
  pub crtime : ℕ
  pub uid : ℕ  -- uint32
  pub gid : ℕ  -- uint32

pub record ChildInodeEntry : Type 0 where
  pub child : ℕ
  pub generation : ℕ
  pub attributes : Attributes
  pub attributes_expiration : ℕ
  pub entry_expiration : ℕ

pub record OpContext : Type 0 where
  pub fuse_id : ℕ  -- uint64
  pub pid : ℕ  -- uint32
  pub uid : ℕ  -- uint32

-- A destination buffer is a slice of the incoming message, or a segment of the outgoing one with its
-- length.
pub data Buffer : Type 0 where
  nil : Buffer
  in_message : Slice → Buffer
  in_segment : ℕ → ℕ → Buffer

-- The values that Go makes for fields that are not given.
abbrev pub zero_attributes : Attributes
zero_attributes = record {
  size = 0;
  nlink = 0;
  mode = 0;
  rdev = 0;
  atime = 0;
  mtime = 0;
  ctime = 0;
  crtime = 0;
  uid = 0;
  gid = 0;
}

abbrev pub zero_entry : ChildInodeEntry
zero_entry = record {
  child = 0;
  generation = 0;
  attributes = zero_attributes;
  attributes_expiration = 0;
  entry_expiration = 0;
}
