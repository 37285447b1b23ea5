-- ===== src/Conversions/Times.antt =====
-- conversions.go: the bounds of the times and sizes in attributes.
use fuse.Base.{ℕ, ◌+◌, ◌*◌, ◌^◌, ◌<◌, ◌≤◌, ◌≡◌, ◌⊎◌, Word.{two63, two64}, arith}
use fuse.Fuseops.Types.{Attributes}
use fuse.Conversions.Outgoing.{convert_time, convert_expiration_time, convert_attributes, nano}

-- A time from 1970 on is split into seconds and less than 10^9 nanoseconds, and nothing is lost.
pub convert_time_lem :
    (t : ℕ)
    → t < two63
    → let (secs, nsec) = convert_time t in (secs * nano + nsec ≡ t) × (nsec < nano)
unfolding convert_time
convert_time_lem t h = ground arith

-- A duration d until the expiration is sent as seconds and less than 10^9 nanoseconds, which are d
-- together, and as zero if d is negative; so the seconds are less than 2^34.
pub convert_expiration_time_lem :
    (d : ℕ)
    → d < two64
    → let (secs, nsecs) = convert_expiration_time d in
      (nsecs < nano)
      × (secs < 2 ^ 34)
      × (((two63 ≤ d) × (secs * nano + nsecs ≡ 0)) ⊎ ((d < two63) × (secs * nano + nsecs ≡ d)))
unfolding convert_expiration_time
convert_expiration_time_lem d h = ground arith

-- The number of blocks is the least whose 512 bytes each hold the size, if the size is at least 511
-- less than 2^64.
pub blocks_lem :
    (inode : ℕ) (a : Attributes)
    → a.size + 511 < two64
    → let n = (convert_attributes inode a).blocks in (a.size ≤ n * 512) × (n * 512 < a.size + 512)
unfolding convert_attributes
blocks_lem inode a h = ground arith
