-- ===== src/Conversions/Outgoing.antt =====
-- conversions.go: the general conversions, and the structures that a reply gets. A time is the bit
-- pattern of its `UnixNano`, and a duration that of its `int64`. What `t.Sub(time.Now())` gives is the
-- function `until`, of the number of the call in a conversion and of `t`.
use fuse.Base.{
  ℕ,
  zero,
  suc,
  ◌+◌,
  ◌-◌,
  ◌/◌,
  ◌%◌,
  ◌^◌,
  Bool,
  ◌||◌,
  not,
  Option,
  none,
  some,
  List,
  take,
  set,
  Bytes.{Bytes},
  Outcome,
  done,
  ◌>>=◌,
  Word.{two64, u64, is_negative},
  ◌==◌,
  if◌then◌else◌,
}
use fuse.Buffer.OutMessage
use fuse.Buffer.OutMessage.{OutMessage, Segment}
use fuse.Fuseops.Types.{Attributes, ChildInodeEntry}
use fuse.Fuseops.Internal.{InitFlags}
use fuse.Conversions.{convert_go_mode}
use fuse.Kernel.Responses.{Attr, EntryOut}

abbrev pub nano : ℕ
nano = 10 ^ 9

-- `-int64(n)` and `-int32(n)` of what Go's division, which rounds to zero, gives.
abbrev pub negated : ℕ → ℕ → ℕ
negated w n = (2 ^ w - n) % 2 ^ w

unfoldable pub convert_time : ℕ → ℕ × ℕ
convert_time t =
    if is_negative t
    then (negated 64 ((two64 - t) / nano), negated 32 ((two64 - t) % nano))
    else (t / nano, t % nano)

-- `S_IFCHR | S_IFBLK` has the bits 13 and 14.
abbrev pub has_device_bits : ℕ → Bool
has_device_bits mode = not (mode / 2 ^ 13 % 4 == 0)

unfoldable pub convert_attributes : ℕ → Attributes → Attr
unfolding convert_time
convert_attributes inode a =
    let mode = convert_go_mode a.mode in
    record {
      ino = inode;
      size = a.size;
      blocks = u64 (a.size + 511) / 512;
      atime = (convert_time a.atime).0;
      mtime = (convert_time a.mtime).0;
      ctime = (convert_time a.ctime).0;
      atime_nsec = (convert_time a.atime).1;
      mtime_nsec = (convert_time a.mtime).1;
      ctime_nsec = (convert_time a.ctime).1;
      mode = mode;
      nlink = a.nlink;
      uid = a.uid;
      gid = a.gid;
      rdev = if has_device_bits mode then a.rdev else 0;
      blksize = 0;
    }

-- `d > 0`
unfoldable pub convert_expiration_time : ℕ → ℕ × ℕ
convert_expiration_time d = if is_negative d || d == 0 then (0, 0) else (d / nano, d % nano)

unfoldable pub convert_child_inode_entry : (ℕ → ℕ → ℕ) → ChildInodeEntry → EntryOut
unfolding convert_expiration_time convert_attributes
convert_child_inode_entry until e = record {
  nodeid = e.child;
  generation = e.generation;
  entry_valid = (convert_expiration_time (until 0 e.entry_expiration)).0;
  attr_valid = (convert_expiration_time (until 1 e.attributes_expiration)).0;
  entry_valid_nsec = (convert_expiration_time (until 0 e.entry_expiration)).1;
  attr_valid_nsec = (convert_expiration_time (until 1 e.attributes_expiration)).1;
  attr = convert_attributes e.child e.attributes;
}

-- A `uint32` of the flags, from their lowest `n` bits.
unfoldable pub flags_number : ℕ → InitFlags → ℕ
flags_number zero f = 0
flags_number (suc n) f = (if f n then 2 ^ n else 0) + flags_number n f

-- What is written through the pointer to a segment.
abbrev pub write_segment : ℕ → Bytes → Option (List Segment) → Option (List Segment)
write_segment i b none = none
write_segment i b (some l) = some (set l i (OutMessage.bytes b))

-- `(*out)(m.Grow(n))` and the assignments to its fields, of which the first `n` bytes are sent.
unfoldable pub put_struct : ℕ → Bytes → OutMessage → Outcome OutMessage
put_struct n b m = do
  (i, m') ← OutMessage.grow n m
  done (record m' { sglist = write_segment i (take n b) m'.sglist })
