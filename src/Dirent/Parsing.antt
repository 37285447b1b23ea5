-- ===== src/Dirent/Parsing.antt =====
-- How the kernel reads what `WriteDirent` writes.
use fuse.Base.{
  ℕ,
  ◌+◌,
  ◌*◌,
  ◌/◌,
  ◌⊎◌,
  ◌^◌,
  ◌≤◌,
  ◌<◌,
  ◌≡◌,
  refl,
  sym,
  ap,
  ◌∙◌,
  Option,
  none,
  some,
  ◌++◌,
  append_assoc,
  length,
  take,
  drop,
  replicate,
  length-append,
  take-append,
  drop-append,
  Bytes.{Bytes, to_le, of_le},
  ltb,
  if◌then◌else◌,
  ltb-eq_false,
  Bool-cases,
  inl,
  inr,
  arith,
}
use fuse.Dirent.{Dirent, dirent_size, pad_len, total_len, fuse_dirent, write_dirent}
use fuse.Dirent.Format.{
  encode, length-encode, length-fuse_dirent, write_dirent_lem, rounded, total_len_lem,
}

-- An entry with the given header fields at the front of `b`.
parse_with : ℕ → ℕ → ℕ → ℕ → Bytes → Option (Dirent × Bytes)
parse_with inode offset name_len type b =
    let d : Dirent = record {
      offset = offset;
      inode = inode;
      name = take name_len (drop 24 b);
      type = type;
    } in
    if ltb (length b) (rounded (24 + name_len))
    then none
    else some (d, drop (rounded (24 + name_len)) b)

-- How the kernel reads an entry: the fields of `fuse_dirent`, then `namelen` bytes of name, and the
-- next entry at the next multiple of 8. `none` is the end of the data, or a cut entry.
unfoldable pub parse_dirent : Bytes → Option (Dirent × Bytes)
unfolding parse_with
parse_dirent b =
    parse_with (of_le (take 8 b)) (of_le (take 8 (drop 8 b))) (of_le (take 4 (drop 16 b)))
      (of_le (take 4 (drop 20 b))) b

-- The fields are as wide as the layout makes them.
pub record InRange (d : Dirent) : Type 0 where
  pub offset_range : d.offset < 2 ^ 64
  pub inode_range : d.inode < 2 ^ 64
  pub name_range : length d.name < 2 ^ 32
  pub type_range : d.type < 2 ^ 32

-- The four integers at the front of an entry.
fields :
    (d : Dirent) (rest : Bytes)
    → InRange d
    → let b = fuse_dirent d ++ rest in
      (of_le (take 8 b) ≡ d.inode)
      × (of_le (take 8 (drop 8 b)) ≡ d.offset)
      × (of_le (take 4 (drop 16 b)) ≡ length d.name)
      × (of_le (take 4 (drop 20 b)) ≡ d.type)
unfolding fuse_dirent to_le of_le
fields d rest r = ground arith

parse_with_lem :
    (d : Dirent) (b rest : Bytes)
    → take (length d.name) (drop 24 b) ≡ d.name
    → drop (total_len d) b ≡ rest
    → total_len d ≤ length b
    → parse_with d.inode d.offset (length d.name) d.type b ≡ some (d, rest)
unfolding parse_with
parse_with_lem d b rest named behind room =
    rw (← total_len_lem d, named, ltb-eq_false (length b) (total_len d) room, behind) refl

encode-parts :
    (d : Dirent) (rest : Bytes)
    → encode d ++ rest ≡ fuse_dirent d ++ (d.name ++ (replicate (pad_len d.name) 0 ++ rest))
encode-parts d rest = simp append_assoc

pub parse_dirent-encode :
    (d : Dirent) (rest : Bytes) → InRange d → parse_dirent (encode d ++ rest) ≡ some (d, rest)
unfolding parse_dirent
parse_dirent-encode d rest r =
    let padding : Bytes = replicate (pad_len d.name) 0 ++ rest in
    let (ino, off, len, ty) = fields d (d.name ++ padding) r in
    let named : take (length d.name) (drop dirent_size (fuse_dirent d ++ (d.name ++ padding)))
        ≡ d.name =
      ap (take (length d.name))
        (drop-append (fuse_dirent d) (d.name ++ padding) dirent_size (sym (length-fuse_dirent d)))
      ∙ take-append d.name padding (length d.name) refl in
    let behind : drop (total_len d) (fuse_dirent d ++ (d.name ++ padding)) ≡ rest =
      ap (drop (total_len d)) (sym (encode-parts d rest))
      ∙ drop-append (encode d) rest (total_len d) (sym (length-encode d)) in
    let room : total_len d ≤ length (fuse_dirent d ++ (d.name ++ padding)) =
      omega
        (arith, length-encode d, length-append (encode d) rest, ap length (encode-parts d rest)) in
    rw (encode-parts d rest, ino, off, len, ty) (parse_with_lem d _ rest named behind room)

-- For an entry whose fields are in range, with its 24 bytes and its name rounded up to a multiple of
-- 8: if the buffer has not got so much room, `WriteDirent` leaves it as it is and returns 0;
-- otherwise it returns that size, and whoever parses the buffer by the kernel's layout, which is
-- written out on its own, gets the entry and, behind it, the rest of the buffer as it was.
pub parse_dirent-write_dirent :
    (buf : Bytes) (d : Dirent)
    → InRange d
    → let size = (24 + length d.name + 7) / 8 * 8 in
      let (buf', n) = write_dirent buf d in
      ((length buf < size) × (buf' ≡ buf) × (n ≡ 0))
      ⊎ ((size ≤ length buf) × (n ≡ size) × (parse_dirent buf' ≡ some (d, drop size buf)))
parse_dirent-write_dirent buf d r =
    let size = total_len_lem d in
    elim (Bool-cases (ltb (length buf) (total_len d))) [
      | inl full ↦
          let ran : write_dirent buf d ≡ (buf, 0) = write_dirent_lem buf d ∙ rw full refl in
          inl (ground (arith, size), ap (λ r. r.0) ran, ap (λ r. r.1) ran)
      | inr room ↦
          let ran : write_dirent buf d ≡ (encode d ++ drop (total_len d) buf, total_len d) =
            write_dirent_lem buf d ∙ rw room refl in
          inr (
            ground (arith, size),
            ap (λ r. r.1) ran ∙ size,
            ap (λ r. parse_dirent r.0) ran
                ∙ parse_dirent-encode d (drop (total_len d) buf) r
                ∙ ap (λ n. some (d, drop n buf)) size,
          )
    ]
