-- ===== src/Dirent/Tests.antt =====
-- An entry for a file `abc`.
use fuse.Base.{
  ◌⊎◌,
  ◌<◌,
  ◌≤◌,
  drop,
  ◌≡◌,
  refl,
  some,
  [],
  ◌∷◌,
  replicate,
  Bytes.{Bytes, copy, to_le},
  arith,
}
use fuse.Dirent.{Dirent, dt_file, fuse_dirent, pad_len, write_parts, write_dirent}
use fuse.Dirent.Parsing.{parse_dirent, parse_dirent-write_dirent}

abbrev abc : Dirent
abc = record { offset = 1; inode = 300; name = 97 ∷ 98 ∷ 99 ∷ []; type = dt_file }

abbrev room : Bytes
room = replicate 33 7

writes_32 : (write_dirent room abc).1 ≡ 32
unfolding write_dirent write_parts fuse_dirent pad_len copy to_le
writes_32 = refl

parse_dirent-write_dirent_example :
    let (buf', n) = write_dirent room abc in
    (◌<◌ 33 32 × (buf' ≡ room) × (n ≡ 0))
    ⊎ (◌≤◌ 32 33 × (n ≡ 32) × (parse_dirent buf' ≡ some (abc, drop 32 room)))
parse_dirent-write_dirent_example = parse_dirent-write_dirent room abc (omega arith)
