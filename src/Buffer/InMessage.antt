-- ===== src/Buffer/InMessage.antt =====
-- internal/buffer/in_message.go: a message read from the kernel, as a cursor over its storage.
-- A slice of the storage is its offset and its length, so that aliasing shows. The build is the one
-- for Linux, where `fusekernel.IsPlatformFuseT` is false and `Init` makes one call of `Read`.
pub mod Cursor
pub mod Accepted
use fuse.Base.{
  ℕ,
  ◌+◌,
  ◌-◌,
  ◌^◌,
  min,
  Bool,
  ◌||◌,
  Option,
  none,
  some,
  List,
  ◌++◌,
  length,
  take,
  drop,
  replicate,
  Bytes.{Bytes, of_le},
  ltb,
  leb,
  ◌==◌,
  not,
  if◌then◌else◌,
}

-- `fusekernel.InHeader`
pub record InHeader : Type 0 where
  pub len : ℕ  -- uint32
  pub opcode : ℕ  -- uint32
  pub unique : ℕ  -- uint64
  pub nodeid : ℕ  -- uint64
  pub uid : ℕ  -- uint32
  pub gid : ℕ  -- uint32
  pub pid : ℕ  -- uint32

abbrev pub header_size : ℕ
header_size = 40

pub record Slice : Type 0 where
  pub off : ℕ
  pub len : ℕ

pub record InMessage : Type 0 where
  pub remaining : Slice
  pub storage : Bytes
  pub size : ℕ

-- The bytes that a slice of the storage shows.
abbrev pub slice_bytes : Bytes → Slice → Bytes
slice_bytes storage s = take s.len (drop s.off storage)

-- An integer field of `width` bytes at `off`.
abbrev pub field_at : ℕ → ℕ → Bytes → ℕ
field_at off width bytes = of_le (take width (drop off bytes))

abbrev pub max_write_size : ℕ
max_write_size = 2 ^ 20

unfoldable pub new_in_message : ℕ → InMessage
new_in_message page_size = record {
  remaining = record { off = 0; len = 0 };
  storage = replicate (page_size + max_write_size) 0;
  size = 0;
}

-- What one call of `r.Read` gives: bytes, or an error.
pub data ReadResult (E : Type 0) : Type 0 where
  bytes : Bytes → ReadResult E
  failed : E → ReadResult E

pub data InitError (E : Type 0) : Type 0 where
  reader : E → InitError E
  short_read : ℕ → InitError E
  bad_length : ℕ → ℕ → InitError E

unfoldable pub header : InMessage → InHeader
header m = record {
  len = field_at 0 4 m.storage;
  opcode = field_at 4 4 m.storage;
  unique = field_at 8 8 m.storage;
  nodeid = field_at 16 8 m.storage;
  uid = field_at 24 4 m.storage;
  gid = field_at 28 4 m.storage;
  pid = field_at 32 4 m.storage;
}

-- `Read` fills the front of the storage, and no more than the storage.
abbrev pub fill : Bytes → Bytes → Bytes
fill storage b = let n = min (length b) (length storage) in take n b ++ drop n storage

-- The checks of `Init` after a read of `n` bytes.
unfoldable pub accept : {E : Type 0} → InMessage → ℕ → InMessage × Option (InitError E)
unfolding header
accept m n =
    if ltb n header_size
    then (m, some (short_read n))
    else (let m' = record m {
      size = n;
      remaining = record { off = header_size; len = n - header_size };
    } in
        if (header m').len == n then (m', none) else (m', some (bad_length (header m').len n)))

unfoldable pub init : {E : Type 0} → InMessage → ReadResult E → InMessage × Option (InitError E)
unfolding accept
init m (failed e) = (m, some (reader e))
init m (bytes b) =
    accept (record m { storage = fill m.storage b }) (min (length b) (length m.storage))

unfoldable pub len : InMessage → ℕ
len m = m.remaining.len

-- The first `n` bytes of what remains, and the rest.
abbrev pub front : InMessage → ℕ → Slice
front m n = record { off = m.remaining.off; len = n }

abbrev pub advance : InMessage → ℕ → InMessage
advance m n = record m {
  remaining = record { off = m.remaining.off + n; len = m.remaining.len - n };
}

-- The pointer that `Consume` returns is shown as the slice of the `n` bytes behind it.
unfoldable pub consume : ℕ → InMessage → Option Slice × InMessage
unfolding len
consume n m = if len m == 0 || ltb (len m) n then (none, m) else (some (front m n), advance m n)

unfoldable pub consume_bytes : ℕ → InMessage → Option Slice × InMessage
unfolding len
consume_bytes n m = if ltb (len m) n then (none, m) else (some (front m n), advance m n)

-- The callers pass a `uint32`, so `n` is not negative.
unfoldable pub get_free : ℕ → InMessage → Option Slice
get_free n m =
    if n == 0 || ltb (length m.storage - m.size) n
    then none
    else some (record { off = m.size; len = n })
