-- ===== src/Memfs/Inode/Listing.antt =====
-- What `ReadDir` writes, and that a reader who goes on from the last entry's offset misses nothing.
use fuse.Base.{
  ℕ,
  zero,
  suc,
  ◌+◌,
  ◌-◌,
  ◌<◌,
  ◌≡◌,
  refl,
  sym,
  ap,
  ap₂,
  subst,
  ◌∙◌,
  true,
  false,
  List,
  [],
  ◌∷◌,
  ◌++◌,
  append-nil,
  append_assoc,
  length,
  take,
  drop,
  length-append,
  length-drop,
  take-append,
  drop-append,
  drop-drop,
  Bytes.{Bytes},
  Word.{two63},
  done,
  ltb,
  if◌then◌else◌,
  Bool-cases,
  inl,
  inr,
  leb-eq_false,
  ==-eq_false,
  arith,
}
use fuse.Dirent.{Dirent, total_len, write_dirent}
use fuse.Dirent.Format.{encode, length-encode, write_dirent_lem}
use fuse.Memfs.Inode.{Inode, is_dir, is_unused, read_entries, read_dir}
use fuse.Memfs.Inode.Entries.{OffsetsFrom}
use fuse.Memfs.Inode.Invariant.{IsValid}

-- The entries in use.
unfoldable pub used : List Dirent → List Dirent
used [] = []
used (e ∷ es) = let rest = used es in if is_unused e then rest else e ∷ rest

-- As many of the entries, from the first on, as `cap` bytes hold.
unfoldable pub fitting : ℕ → List Dirent → List Dirent
fitting cap [] = []
fitting cap (e ∷ es) =
    let rest = fitting (cap - total_len e) es in if ltb cap (total_len e) then [] else e ∷ rest

unfoldable pub encode_all : List Dirent → Bytes
encode_all [] = []
encode_all (e ∷ es) = encode e ++ encode_all es

-- The buffer and the count after the entries `shown` were written behind `pre`.
abbrev Written : Bytes → Bytes → List Dirent → Bytes × ℕ
Written pre buf shown = (
  (pre ++ encode_all shown) ++ drop (length (encode_all shown)) buf,
  length pre + length (encode_all shown),
)

Written-nil : (pre buf : Bytes) → (pre ++ buf, length pre) ≡ Written pre buf []
unfolding encode_all
Written-nil pre buf =
    ap₂ (λ (a : Bytes) (n : ℕ). (a, n)) (ap (λ p. p ++ buf) (sym (append-nil pre))) (omega arith)

Written-cons :
    (pre buf : Bytes) (e : Dirent) (es : List Dirent)
    → Written (pre ++ encode e) (drop (total_len e) buf) es ≡ Written pre buf (e ∷ es)
unfolding encode_all
Written-cons pre buf e es =
    let k = length (encode_all es) in
    let whole : total_len e + k ≡ length (encode e ++ encode_all es) =
      omega (arith, length-encode e, length-append (encode e) (encode_all es)) in
    ap₂ (λ (a : Bytes) (n : ℕ). (a, n))
      (ap₂ ◌++◌ (append_assoc pre (encode e) (encode_all es))
        (drop-drop k (total_len e) buf ∙ ap (λ m. drop m buf) whole))
      (omega (arith, length-append pre (encode e), length-encode e, whole))

-- The branches of the loop.
read_nil : (buf : Bytes) (n : ℕ) → read_entries buf n [] ≡ (buf, n)
unfolding read_entries
read_nil buf n = refl

skip_unused :
    (buf : Bytes) (n : ℕ) (d : Dirent) (es : List Dirent)
    → is_unused d ≡ true
    → read_entries buf n (d ∷ es) ≡ read_entries buf n es
unfolding read_entries
skip_unused buf n d es h = rw (h, read_entries)

stop_full :
    (buf tail : Bytes) (n : ℕ) (d : Dirent) (es : List Dirent)
    → is_unused d ≡ false
    → write_dirent (drop n buf) d ≡ (tail, 0)
    → read_entries buf n (d ∷ es) ≡ (buf, n)
unfolding read_entries
stop_full buf tail n d es h w = rw (h, w, read_entries)

go_on :
    (buf tail : Bytes) (n written : ℕ) (d : Dirent) (es : List Dirent)
    → is_unused d ≡ false
    → write_dirent (drop n buf) d ≡ (tail, written)
    → 0 < written
    → read_entries buf n (d ∷ es) ≡ read_entries (take n buf ++ tail) (n + written) es
unfolding read_entries
go_on buf tail n written d es h w pos =
    rw (h, w, ==-eq_false written 0 (omega arith), read_entries)
      (ap (λ (r : Bytes × ℕ). read_entries (take n buf ++ r.0) (n + r.1) es) w)

read_entries_lem :
    (pre buf : Bytes) (n : ℕ) (es : List Dirent)
    → n ≡ length pre
    → read_entries (pre ++ buf) n es ≡ Written pre buf (fitting (length buf) (used es))
unfolding used fitting
read_entries_lem pre buf n [] e = read_nil (pre ++ buf) n ∙ rw e (Written-nil pre buf)
read_entries_lem pre buf n (d ∷ es) e = elim (Bool-cases (is_unused d)) [
  | inl free ↦ skip_unused (pre ++ buf) n d es free ∙ rw free (read_entries_lem pre buf n es e)
  | inr shown ↦
      let written : write_dirent (drop n (pre ++ buf)) d ≡ _ =
        ap (λ b. write_dirent b d) (drop-append pre buf n e) ∙ write_dirent_lem buf d in
      elim (Bool-cases (ltb (length buf) (total_len d))) [
        | inl full ↦
            stop_full (pre ++ buf) buf n d es shown (written ∙ rw full)
            ∙ rw (shown, full, e) (Written-nil pre buf)
        | inr room ↦
            go_on (pre ++ buf) (encode d ++ drop (total_len d) buf) n (total_len d) d es shown
              (written ∙ rw room) (omega arith)
            ∙ ap
                (λ p. read_entries (p ++ (encode d ++ drop (total_len d) buf)) (n + total_len d) es)
                (take-append pre buf n e)
            ∙ ap (λ b. read_entries b (n + total_len d) es)
                (sym (append_assoc pre (encode d) (drop (total_len d) buf)))
            ∙ read_entries_lem (pre ++ encode d) (drop (total_len d) buf) (n + total_len d) es
                (omega (arith, e, length-append pre (encode d), length-encode d))
            ∙ rw (shown, room, length-drop (total_len d) buf)
                (Written-cons pre buf d (fitting (length buf - total_len d) (used es)))
      ]
]

-- `ReadDir` of a directory writes, from an index below 2^63 on, the used entries that fit, one
-- behind the other, and leaves the rest of the buffer alone; it returns the number of bytes
-- written.
pub read_dir_lem :
    (buf : Bytes) (off : ℕ) (x : Inode)
    → is_dir x ≡ true
    → off < two63
    → let shown = encode_all (fitting (length buf) (used (drop off x.entries))) in
      read_dir buf off x ≡ done (shown ++ drop (length shown) buf, length shown)
unfolding read_dir
read_dir_lem buf off x d small =
    rw (d, leb-eq_false two63 off small)
      (ap done (
        read_entries_lem [] buf 0 (drop off x.entries) refl
        ∙ ap₂ (λ (a : Bytes) (n : ℕ). (a, n)) refl (omega arith)))

-- Where the entries in use are split behind one of them, that entry's offset leads to the rest.
resume :
    (k : ℕ) (es shown rest : List Dirent) (last : Dirent)
    → OffsetsFrom k es
    → used es ≡ shown ++ (last ∷ rest)
    → (j : ℕ) × (last.offset ≡ k + suc j) × (used (drop (suc j) es) ≡ rest)
unfolding used
resume k [] [] rest last o h = cc
resume k [] (s ∷ shown) rest last o h = cc
resume k (e ∷ es) [] rest last o h = elim (Bool-cases (is_unused e)) [
  | inl free ↦
      let (j, at, left) = resume (suc k) es [] rest last o.1 (ground arith) in
      (suc j, omega arith, left)
  | inr in_use ↦ (zero, ground arith, ground arith)
]
resume k (e ∷ es) (s ∷ shown) rest last o h = elim (Bool-cases (is_unused e)) [
  | inl free ↦
      let (j, at, left) = resume (suc k) es (s ∷ shown) rest last o.1 (ground arith) in
      (suc j, omega arith, left)
  | inr in_use ↦
      let (j, at, left) = resume (suc k) es shown rest last o.1 (ground arith) in
      (suc j, omega arith, left)
]

OffsetsFrom-drop : (n k : ℕ) (es : List Dirent) → OffsetsFrom k es → OffsetsFrom (k + n) (drop n es)
OffsetsFrom-drop zero k es h = subst (λ m. OffsetsFrom m es) {x = k} {y = k + zero} (omega arith) h
OffsetsFrom-drop (suc n) k [] h = tt
OffsetsFrom-drop (suc n) k (e ∷ es) h =
    subst (λ m. OffsetsFrom m (drop n es)) {x = suc k + n} {y = k + suc n} (omega arith)
      (OffsetsFrom-drop n (suc k) es h.1)

-- In a valid inode, a reader that was shown the used entries up to `last`, from index `off` on, and
-- that goes on at the offset of `last`, is shown exactly the used entries that were left.
pub resume_at_offset :
    (x : Inode) (off : ℕ) (shown rest : List Dirent) (last : Dirent)
    → IsValid x
    → used (drop off x.entries) ≡ shown ++ (last ∷ rest)
    → used (drop last.offset x.entries) ≡ rest
resume_at_offset x off shown rest last v h =
    let (j, at, left) =
      resume (0 + off) (drop off x.entries) shown rest last
        (OffsetsFrom-drop off 0 x.entries v.offsets) h in
    ap (λ k. used (drop k x.entries)) {y = off + suc j} (omega arith)
    ∙ sym (ap used (drop-drop (suc j) off x.entries))
    ∙ left
