-- ===== src/Kernel/Protocol.antt =====
-- internal/fusekernel/protocol.go: versions of the protocol and what they support.
use fuse.Base.{ℕ, Bool, ◌&&◌, ◌||◌, ltb, leb, ◌==◌}

pub record Protocol : Type 0 where
  pub major : ℕ  -- uint32
  pub minor : ℕ  -- uint32

abbrev pub version : ℕ → ℕ → Protocol
version major minor = record { major = major; minor = minor }

-- `LT`
unfoldable pub lt : Protocol → Protocol → Bool
lt a b = ltb a.major b.major || a.major == b.major && ltb a.minor b.minor

-- `GE`
unfoldable pub ge : Protocol → Protocol → Bool
ge a b = ltb b.major a.major || a.major == b.major && leb b.minor a.minor

unfoldable pub is79 : Protocol → Bool
unfolding ge
is79 a = ge a (version 7 9)

unfoldable pub has_attr_block_size : Protocol → Bool
unfolding is79
has_attr_block_size a = is79 a

unfoldable pub has_read_write_flags : Protocol → Bool
unfolding is79
has_read_write_flags a = is79 a

unfoldable pub has_getattr_flags : Protocol → Bool
unfolding is79
has_getattr_flags a = is79 a

unfoldable pub is710 : Protocol → Bool
unfolding ge
is710 a = ge a (version 7 10)

unfoldable pub has_open_non_seekable : Protocol → Bool
unfolding is710
has_open_non_seekable a = is710 a

unfoldable pub is712 : Protocol → Bool
unfolding ge
is712 a = ge a (version 7 12)

unfoldable pub has_umask : Protocol → Bool
unfolding is712
has_umask a = is712 a

unfoldable pub has_invalidate : Protocol → Bool
unfolding is712
has_invalidate a = is712 a
