-- ===== src/Memfs/Inode/Contents.antt =====
-- Facts about byte strings that are extended by zeros and written in the middle.
use fuse.Base.{
  ℕ,
  zero,
  suc,
  ◌+◌,
  ◌-◌,
  ◌≤◌,
  ◌<◌,
  ◌≡◌,
  refl,
  sym,
  ap,
  ◌∙◌,
  [],
  ◌∷◌,
  ◌++◌,
  append-nil,
  length,
  take,
  drop,
  replicate,
  length-append,
  length-take,
  length-drop,
  length-replicate,
  take-append-drop,
  drop-drop,
  Bytes.{Bytes, copy, copy-append},
  Word.{two63, signed_lt, signed_le},
  done,
  ltb,
  leb,
  if◌then◌else◌,
  ltb-eq_false,
  ==_refl,
  arith,
}
use fuse.Memfs.Inode.{Inode, extended, store}

-- The contents as an endless string: zeros behind the end.
abbrev pub byte_at : Bytes → ℕ → ℕ
byte_at [] i = 0
byte_at (b ∷ bs) zero = b
byte_at (b ∷ bs) (suc i) = byte_at bs i

-- What POSIX wants of a write: the bytes from `off` on are those written, all others are as before,
-- where bytes behind the end count as zeros.
abbrev pub written : Bytes → ℕ → Bytes → ℕ → ℕ
written p off old i =
    if ltb i off
    then byte_at old i
    else if ltb i (off + length p)
    then byte_at p (i - off)
    else byte_at old i

byte_at-append :
    (xs ys : Bytes) (i : ℕ)
    → byte_at (xs ++ ys) i
      ≡ (if ltb i (length xs) then byte_at xs i else byte_at ys (i - length xs))
byte_at-append [] ys i = ground arith
byte_at-append (x ∷ xs) ys zero = ground arith
byte_at-append (x ∷ xs) ys (suc i) = ground (arith, byte_at-append xs ys i)

byte_at-zeros : (n i : ℕ) → byte_at (replicate n 0) i ≡ 0
byte_at-zeros zero i = refl
byte_at-zeros (suc n) zero = refl
byte_at-zeros (suc n) (suc i) = byte_at-zeros n i

pub byte_at-take : (n i : ℕ) (xs : Bytes) → i < n → byte_at (take n xs) i ≡ byte_at xs i
byte_at-take zero i xs h = absurd (omega arith)
byte_at-take (suc n) i [] h = refl
byte_at-take (suc n) zero (x ∷ xs) h = refl
byte_at-take (suc n) (suc i) (x ∷ xs) h = byte_at-take n i xs (omega arith)

byte_at-drop : (n i : ℕ) (xs : Bytes) → byte_at (drop n xs) i ≡ byte_at xs (n + i)
byte_at-drop zero i xs = ap (byte_at xs) {y = zero + i} (omega arith)
byte_at-drop (suc n) i [] = refl
byte_at-drop (suc n) i (x ∷ xs) =
    byte_at-drop n i xs ∙ ap (byte_at (x ∷ xs)) {x = suc (n + i)} {y = suc n + i} (omega arith)

pub byte_at-outside : (xs : Bytes) (i : ℕ) → length xs ≤ i → byte_at xs i ≡ 0
byte_at-outside [] i h = refl
byte_at-outside (x ∷ xs) zero h = absurd (omega arith)
byte_at-outside (x ∷ xs) (suc i) h = byte_at-outside xs i (omega arith)

-- Zeros behind the end cannot be seen.
pub byte_at-extended : (xs : Bytes) (size i : ℕ) → byte_at (extended xs size) i ≡ byte_at xs i
byte_at-extended xs size i =
    let zeros : Bytes = replicate (size - length xs) 0 in
    ground (
      arith,
      byte_at-append xs zeros i,
      byte_at-outside xs i,
      byte_at-zeros (size - length xs) (i - length xs),
    )

pub length-extended :
    (xs : Bytes) (size : ℕ) → length (extended xs size) ≡ length xs + (size - length xs)
length-extended xs size = omega (
  arith,
  length-append xs (replicate (size - length xs) 0),
  length-replicate {A = ℕ} (size - length xs) 0,
)

pub extended_short : (xs : Bytes) (size : ℕ) → size ≤ length xs → extended xs size ≡ xs
extended_short xs size h =
    let none_missing : size - length xs ≡ 0 = omega arith in rw none_missing (append-nil xs)

pub signed_lt-small : (a b : ℕ) → a < two63 → b < two63 → signed_lt a b ≡ ltb a b
signed_lt-small a b ha hb = ground arith

pub signed_le-small : (a b : ℕ) → a < two63 → b < two63 → signed_le a b ≡ leb a b
signed_le-small a b ha hb = ground arith

-- A string with `p` put in at `off`.
abbrev pub spliced : Bytes → ℕ → Bytes → Bytes
spliced p off xs = take off xs ++ (p ++ drop (off + length p) xs)

copy-spliced :
    (off : ℕ) (p xs : Bytes)
    → off + length p ≤ length xs
    → copy off p xs ≡ (spliced p off xs, length p)
copy-spliced off p xs h =
    ap (copy off p) (sym (take-append-drop off xs))
    ∙ copy-append off (take off xs) p (drop off xs) (omega (arith, length-take off xs))
        (omega (arith, length-drop off xs))
    ∙ ap (λ tail. (take off xs ++ (p ++ tail), length p)) (drop-drop (length p) off xs)

pub length-spliced :
    (off : ℕ) (p xs : Bytes) → off + length p ≤ length xs → length (spliced p off xs) ≡ length xs
length-spliced off p xs h =
    let tail = drop (off + length p) xs in
    omega (
      arith,
      length-append (take off xs) (p ++ tail),
      length-append p tail,
      length-take off xs,
      length-drop (off + length p) xs,
    )

pub byte_at-spliced :
    (off : ℕ) (p xs : Bytes) (i : ℕ)
    → off + length p ≤ length xs
    → byte_at (spliced p off xs) i ≡ written p off xs i
byte_at-spliced off p xs i h =
    let tail = drop (off + length p) xs in
    ground (
      arith,
      byte_at-append (take off xs) (p ++ tail) i,
      byte_at-append p tail (i - off),
      length-take off xs,
      byte_at-take off i xs,
      byte_at-drop (off + length p) (i - off - length p) xs,
    )

pub store_lem :
    (p : Bytes) (off : ℕ) (x : Inode)
    → off + length p ≤ length x.contents
    → store p off x ≡ done (record x { contents = spliced p off x.contents }, length p)
unfolding store
store_lem p off x h = rw (
  ltb-eq_false (length x.contents) off (omega arith),
  copy-spliced off p x.contents h,
  ==_refl (length p),
)
