-- ===== src/Memfs/Inode/Reader.antt =====
-- The kernel's side of a directory listing: it reads a buffer of entries, then goes on at the
-- offset of the last one, until a read shows nothing.
use fuse.Base.{
  ℕ,
  zero,
  suc,
  ◌+◌,
  ◌-◌,
  ◌≤◌,
  ◌<◌,
  ◌≡◌,
  refl,
  sym,
  ap,
  subst,
  ◌∙◌,
  true,
  none,
  some,
  List,
  [],
  ◌∷◌,
  ◌++◌,
  append_assoc,
  length,
  take,
  drop,
  replicate,
  length-append,
  length-replicate,
  take-append,
  All,
  All-drop,
  All-append_left,
  Bytes.{Bytes},
  Word.{two63},
  Outcome,
  done,
  panic,
  ltb,
  Bool-cases,
  inl,
  inr,
  arith,
}
use fuse.Dirent.{Dirent, total_len}
use fuse.Dirent.Format.{encode, length-encode}
use fuse.Dirent.Parsing.{parse_dirent, parse_dirent-encode, InRange}
use fuse.Memfs.Inode.{Inode, is_dir, is_unused, read_dir}
use fuse.Memfs.Inode.Entries.{OffsetsFrom}
use fuse.Memfs.Inode.Invariant.{IsValid}
use fuse.Memfs.Inode.Listing.{used, fitting, encode_all, read_dir_lem, resume_at_offset}

parse_dirents : ℕ → Bytes → List Dirent
parse_dirents zero b = []
parse_dirents (suc fuel) b = elim (parse_dirent b) [
  | none ↦ []
  | some (d, rest) ↦ d ∷ parse_dirents fuel rest
]

last_offset : List Dirent → ℕ → ℕ
last_offset [] off = off
last_offset (e ∷ es) off = last_offset es e.offset

-- The entries of one reply, and the offset to go on at.
reply : Outcome (Bytes × ℕ) → List Dirent
reply panic = []
reply (done (b, n)) = parse_dirents n (take n b)

pub list_all : ℕ → ℕ → ℕ → Inode → List Dirent
list_all zero cap off x = []
list_all (suc rounds) cap off x =
    let shown = reply (read_dir (replicate cap 0) off x) in
    elim shown [ [] ↦ [] | e ∷ es ↦ (e ∷ es) ++ list_all rounds cap (last_offset es e.offset) x ]

All-used : (P : Dirent → Type 0) (es : List Dirent) → All P es → All P (used es)
unfolding used
All-used P [] h = tt
All-used P (e ∷ es) h = elim (Bool-cases (is_unused e)) [
  | inl free ↦ rw free (All-used P es h.1)
  | inr in_use ↦ rw in_use (h.0, All-used P es h.1)
]

-- The entries that fit are a first part of the list.
fitting_prefix : (cap : ℕ) (es : List Dirent) → (rest : List Dirent) × (es ≡ fitting cap es ++ rest)
unfolding fitting
fitting_prefix cap [] = ([], refl)
fitting_prefix cap (e ∷ es) = elim (Bool-cases (ltb cap (total_len e))) [
  | inl full ↦ rw full (e ∷ es, refl)
  | inr room ↦
      let (rest, same) = fitting_prefix (cap - total_len e) es in rw room (rest, ap (◌∷◌ e) same)
]

All-fitting : (P : Dirent → Type 0) (cap : ℕ) (es : List Dirent) → All P es → All P (fitting cap es)
All-fitting P cap es h =
    let (rest, same) = fitting_prefix cap es in
    All-append_left P (fitting cap es) rest (subst (All P) same h)

parse_nil : parse_dirent [] ≡ none
unfolding parse_dirent
parse_nil = ground arith

length-encode_all-le : (es : List Dirent) → length es ≤ length (encode_all es)
unfolding encode_all
length-encode_all-le [] = omega arith
length-encode_all-le (e ∷ es) =
    omega
      (arith, length-append (encode e) (encode_all es), length-encode e, length-encode_all-le es)

parse_dirents-encode_all :
    (fuel : ℕ) (es : List Dirent)
    → All InRange es
    → length es ≤ fuel
    → parse_dirents fuel (encode_all es) ≡ es
unfolding parse_dirents encode_all
parse_dirents-encode_all zero [] h le = refl
parse_dirents-encode_all zero (e ∷ es) h le = absurd (omega arith)
parse_dirents-encode_all (suc fuel) [] h le = rw (parse_nil, parse_dirents)
parse_dirents-encode_all (suc fuel) (e ∷ es) h le =
    rw (parse_dirent-encode e (encode_all es) h.0, parse_dirents)
      (ap (◌∷◌ e) (parse_dirents-encode_all fuel es h.1 (omega arith)))

-- The kernel reads from a reply just the entries that fitted.
reply_lem :
    (cap off : ℕ) (x : Inode)
    → is_dir x ≡ true
    → off < two63
    → All InRange x.entries
    → reply (read_dir (replicate cap 0) off x) ≡ fitting cap (used (drop off x.entries))
unfolding reply
reply_lem cap off x d small ranges =
    let shown = fitting cap (used (drop off x.entries)) in
    let buf = replicate {A = ℕ} cap 0 in
    let size : length buf ≡ cap = length-replicate cap 0 in
    let in_range : All InRange shown =
      All-fitting InRange cap (used (drop off x.entries))
        (All-used InRange (drop off x.entries) (All-drop InRange off x.entries ranges)) in
    rw (read_dir_lem buf off x d small, size)
      (ap (parse_dirents (length (encode_all shown)))
          (take-append (encode_all shown) (drop (length (encode_all shown)) buf) _ refl)
        ∙ parse_dirents-encode_all _ shown in_range (length-encode_all-le shown))

-- Every entry can be encoded, and takes at most `cap` bytes.
abbrev pub Listable : ℕ → Dirent → Type 0
Listable cap e = InRange e × (total_len e ≤ cap)

offsets-le : (k : ℕ) (es : List Dirent) → OffsetsFrom k es → All (λ e. e.offset ≤ k + length es) es
offsets-le k [] h = tt
offsets-le k (e ∷ es) h = (
  omega arith,
  subst (λ m. All (λ d. d.offset ≤ m) es) {x = suc k + length es} {y = k + length (e ∷ es)}
      (omega arith) (offsets-le (suc k) es h.1),
)

-- The last of a list of entries, and its offset.
split_last :
    (e : Dirent) (es : List Dirent)
    → (init : List Dirent) × (last : Dirent) × (e ∷ es ≡ init ++ last ∷ [])
      × (last_offset es e.offset ≡ last.offset)
unfolding last_offset
split_last e [] = ([], e, refl, refl)
split_last e (d ∷ es) =
    let (init, last, same, off) = split_last d es in (e ∷ init, last, ap (◌∷◌ e) same, off)

All-last :
    (P : Dirent → Type 0) (init : List Dirent) (last : Dirent) → All P (init ++ last ∷ []) → P last
All-last P [] last h = h.0
All-last P (e ∷ init) last h = All-last P init last h.1

-- One round of the reader, by what it is shown.
round :
    (rounds cap off : ℕ) (x : Inode) (shown : List Dirent)
    → reply (read_dir (replicate cap 0) off x) ≡ shown
    → list_all (suc rounds) cap off x ≡ elim shown [
      | [] ↦ []
      | e ∷ es ↦ (e ∷ es) ++ list_all rounds cap (last_offset es e.offset) x
    ]
unfolding list_all
round rounds cap off x shown h = rw (h, list_all)

fitting_nothing :
    (cap : ℕ) (es : List Dirent) → All (Listable cap) es → fitting cap es ≡ [] → es ≡ []
unfolding fitting
fitting_nothing cap [] h e = refl
fitting_nothing cap (d ∷ es) h e = absurd (ground arith)

All-InRange : (cap : ℕ) (es : List Dirent) → All (Listable cap) es → All InRange es
All-InRange cap [] h = tt
All-InRange cap (e ∷ es) h = (h.0.0, All-InRange cap es h.1)

-- The index after a round is in the range of `int` again.
next_small :
    (off : ℕ) (x : Inode) (init rest : List Dirent) (last : Dirent)
    → IsValid x
    → length x.entries < two63
    → used (drop off x.entries) ≡ (init ++ last ∷ []) ++ rest
    → last.offset < two63
next_small off x init rest last v small same =
    let Low : Dirent → Type 0 = λ e. e.offset ≤ 0 + length x.entries in
    let low : All Low (used (drop off x.entries)) =
      All-used Low (drop off x.entries)
        (All-drop Low off x.entries (offsets-le 0 x.entries v.offsets)) in
    let bound : Low last =
      All-last Low init last
        (All-append_left Low (init ++ last ∷ []) rest (subst (All Low) same low)) in
    omega arith

-- A round that shows `s ∷ shown`, followed by rounds that show all that is left after it.
round_shows :
    (rounds cap off : ℕ) (x : Inode) (s : Dirent) (shown : List Dirent)
    → IsValid x
    → length x.entries < two63
    → reply (read_dir (replicate cap 0) off x) ≡ s ∷ shown
    → fitting cap (used (drop off x.entries)) ≡ s ∷ shown
    → length (used (drop off x.entries)) < suc rounds
    → ((off' : ℕ)
        → off' < two63
        → length (used (drop off' x.entries)) < rounds
        → list_all rounds cap off' x ≡ used (drop off' x.entries))
    → list_all (suc rounds) cap off x ≡ used (drop off x.entries)
round_shows rounds cap off x s shown v small read fits enough ih =
    let (rest, split) = fitting_prefix cap (used (drop off x.entries)) in
    let (init, last, ends, at) = split_last s shown in
    let whole : used (drop off x.entries) ≡ (init ++ last ∷ []) ++ rest =
      split ∙ ap (λ l. l ++ rest) (fits ∙ ends) in
    let left : used (drop last.offset x.entries) ≡ rest =
      resume_at_offset x off init rest last v (whole ∙ append_assoc init (last ∷ []) rest) in
    let size : length (used (drop last.offset x.entries)) < rounds = omega (
      arith,
      ap length left,
      ap length whole,
      length-append (init ++ last ∷ []) rest,
      length-append init (last ∷ []),
    ) in
    round rounds cap off x (s ∷ shown) read
    ∙ ap (λ k. (s ∷ shown) ++ list_all rounds cap k x) at
    ∙ ap (◌++◌ (s ∷ shown))
        (ih last.offset (next_small off x init rest last v small whole) size ∙ left)
    ∙ ap (λ l. l ++ rest) ends
    ∙ sym whole

module _ (cap : ℕ) (x : Inode) (v : IsValid x) (d : is_dir x ≡ true)
    (listable : All (Listable cap) x.entries) (small : length x.entries < two63) where
  list_all_from :
      (rounds off : ℕ)
      → off < two63
      → length (used (drop off x.entries)) < rounds
      → list_all rounds cap off x ≡ used (drop off x.entries)
  list_all_from zero off lt h = absurd (omega arith)
  list_all_from (suc rounds) off lt h =
      go (fitting cap (used (drop off x.entries))) refl (list_all_from rounds)
    where
      read : reply (read_dir (replicate cap 0) off x) ≡ fitting cap (used (drop off x.entries))
      read = reply_lem cap off x d lt (All-InRange cap x.entries listable)

      fit_left : All (Listable cap) (used (drop off x.entries))
      fit_left =
          All-used (Listable cap) (drop off x.entries)
            (All-drop (Listable cap) off x.entries listable)

      go :
          (shown : List Dirent)
          → fitting cap (used (drop off x.entries)) ≡ shown
          → ((off' : ℕ)
              → off' < two63
              → length (used (drop off' x.entries)) < rounds
              → list_all rounds cap off' x ≡ used (drop off' x.entries))
          → list_all (suc rounds) cap off x ≡ used (drop off x.entries)
      go [] e ih =
          round rounds cap off x [] (read ∙ e)
          ∙ sym (fitting_nothing cap (used (drop off x.entries)) fit_left e)
      go (s ∷ shown) e ih = round_shows rounds cap off x s shown v small (read ∙ e) e h ih

  -- In a valid directory whose entries each fit the layout and a buffer of `cap` bytes, a reader
  -- with one round more than there are children is shown every used entry, once and in order.
  pub list_all_lem :
      (rounds : ℕ) → length (used x.entries) < rounds → list_all rounds cap 0 x ≡ used x.entries
  list_all_lem rounds h = list_all_from rounds 0 (omega arith) h
