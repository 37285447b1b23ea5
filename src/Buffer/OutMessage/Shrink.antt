-- ===== src/Buffer/OutMessage/Shrink.antt =====
-- `ShrinkTo` keeps a prefix of the message's contents, whatever the segments are.
use fuse.Base.{
  ℕ,
  zero,
  suc,
  ◌+◌,
  ◌-◌,
  ◌≤◌,
  ◌<◌,
  ◌≡◌,
  inl,
  inr,
  refl,
  sym,
  ap,
  ◌∙◌,
  Option,
  none,
  some,
  List,
  [],
  ◌∷◌,
  ◌++◌,
  append-nil,
  append_assoc,
  length,
  take,
  length-append,
  length-take,
  take-nil,
  take-append,
  take-append_add,
  take-append_le,
  get_elem?-append_length,
  set-append_length,
  take-append_suc,
  Bytes.{Bytes},
  Outcome,
  done,
  leb,
  ◌==◌,
  Bool-cases,
  ==-eq_false,
  ltb-eq_false,
  arith,
}
use native.Mathlib.Numerals.{add-one}
use fuse.Buffer.OutMessage.{
  OutMessage, OutHeader, Segment, header_bytes, bytes, header_size, with_header, segments_length,
  len, append, shrink_to, skip, cut, cut_at,
}

-- All segments but the first hold bytes of their own.
abbrev pub AllBytes : List Segment → Type 0
AllBytes [] = Unit
AllBytes (header_bytes ∷ l) = ⊥
AllBytes (bytes b ∷ l) = AllBytes l

abbrev pub IsValidList : Option (List Segment) → Type 0
IsValidList none = Unit
IsValidList (some []) = ⊥
IsValidList (some (header_bytes ∷ l)) = AllBytes l
IsValidList (some (bytes b ∷ l)) = ⊥

-- The scatter-gather list is absent, or begins with the header and goes on with other bytes.
abbrev pub IsValid : OutMessage → Type 0
IsValid m = IsValidList m.sglist

abbrev pub concat : List Segment → Bytes
concat [] = []
concat (header_bytes ∷ l) = concat l
concat (bytes b ∷ l) = b ++ concat l

abbrev pub list_payload : Option (List Segment) → Bytes
list_payload none = []
list_payload (some l) = concat l

-- The bytes of the message behind its header.
abbrev pub payload : OutMessage → Bytes
payload m = list_payload m.sglist

segments_length-concat : (l : List Segment) → AllBytes l → segments_length l ≡ length (concat l)
unfolding segments_length
segments_length-concat [] h = refl
segments_length-concat (header_bytes ∷ l) h = absurd h
segments_length-concat (bytes b ∷ l) h =
    omega (arith, length-append b (concat l), segments_length-concat l h)

-- What the loop and the cut leave of the segments `l` behind the segments `pre`.
abbrev Shrunk : List Segment → List Segment → ℕ → Outcome (List Segment) → Type 0
Shrunk pre l n out =
    (l' : List Segment) × (out ≡ done (pre ++ l')) × AllBytes l' × (concat l' ≡ take n (concat l))

cut_nothing : (pre l : List Segment) → cut_at (pre ++ l) (length pre) 0 ≡ done (pre ++ [])
unfolding cut_at
cut_nothing pre l = ap done (take-append pre l (length pre) refl ∙ sym (append-nil pre))

cut_here :
    (pre : List Segment) (b : Bytes) (l : List Segment) (n : ℕ)
    → n < length b
    → Shrunk pre (bytes b ∷ l) n (cut_at (pre ++ bytes b ∷ l) (length pre) n)
unfolding cut_at
cut_here pre b l zero h = ([], cut_nothing pre (bytes b ∷ l), tt, refl)
cut_here pre b l (suc n) h =
    let cut_bytes = bytes (take (suc n) b) in
    (
      cut_bytes ∷ [],
      rw (
        ==-eq_false (suc n) 0 (omega arith),
        get_elem?-append_length pre (bytes b) l,
        ltb-eq_false (length b) (suc n) (omega arith),
        set-append_length pre (bytes b) cut_bytes l,
        add-one (length pre),
        take-append_suc pre cut_bytes l,
      ),
      tt,
      append-nil (take (suc n) b) ∙ sym (take-append_le b (concat l) (suc n) (omega arith)),
    )

-- The loop from the segment behind `pre`, then the cut.
skip-cut :
    (pre l : List Segment) (whole : List Segment) (i n : ℕ)
    → whole ≡ pre ++ l
    → i ≡ length pre
    → AllBytes l
    → n ≤ segments_length l
    → let (j, left) = skip i n l in Shrunk pre l n (cut_at whole j left)
unfolding segments_length skip
skip-cut pre [] whole i zero e k h le = ([], rw (e, k) (cut_nothing pre []), tt, refl)
skip-cut pre [] whole i (suc n) e k h le = absurd (omega arith)
skip-cut pre (header_bytes ∷ l) whole i n e k h le = absurd h
skip-cut pre (bytes b ∷ l) whole i n e k h le = elim (Bool-cases (leb (length b) n)) [
  | inl keep ↦ rw keep (
      let (l', cut, all, same) =
        skip-cut (pre ++ bytes b ∷ []) l whole (i + 1) (n - length b)
          (e ∙ sym (append_assoc pre (bytes b ∷ []) l))
          (omega (arith, k, length-append pre (bytes b ∷ []))) h (ground arith) in
      (
        bytes b ∷ l',
        cut ∙ ap done (append_assoc pre (bytes b ∷ []) l'),
        all,
        ap (◌++◌ b) same ∙ sym (take-append_add b (concat l) n (n - length b) (ground arith)),
      ))
  | inr here ↦ rw (here, e, k) (cut_here pre b l n (ground arith))
]

-- The result of `ShrinkTo`: the header is kept, and of the bytes behind it the first `n - 16`.
abbrev pub ShrinksTo : ℕ → OutMessage → OutMessage → Type 0
ShrinksTo n m m' =
    IsValid m'
    × (m'.header ≡ m.header)
    × (payload m' ≡ take (n - header_size) (payload m))
    × (len m' ≡ n)

pub len-payload : (m : OutMessage) → IsValid m → len m ≡ header_size + length (payload m)
unfolding len segments_length
len-payload m h = go m.sglist h
  where
    go :
        (o : Option (List Segment))
        → IsValidList o
        → len (record { header = m.header; sglist = o }) ≡ header_size + length (list_payload o)
    go none h = refl
    go (some []) h = absurd h
    go (some (bytes b ∷ l)) h = absurd h
    go (some (header_bytes ∷ l)) h = omega (arith, segments_length-concat l h)

abbrev message : OutHeader → Option (List Segment) → OutMessage
message h o = record { header = h; sglist = o }

shrink_parts :
    (n : ℕ) (h : OutHeader) (o : Option (List Segment))
    → IsValidList o
    → header_size ≤ n
    → n ≤ len (message h o)
    → (m' : OutMessage) × (shrink_to n (message h o) ≡ done m') × ShrinksTo n (message h o) m'
unfolding shrink_to
shrink_parts n h none v lo hi =
    (message h none, ground arith, (tt, refl, sym (take-nil (n - header_size)), ground arith))
shrink_parts n h (some []) v lo hi = absurd v
shrink_parts n h (some (bytes b ∷ l)) v lo hi = absurd v
shrink_parts n h (some (header_bytes ∷ l)) v lo hi = elim (Bool-cases (n == header_size)) [
  | inl bare ↦
      let size : n ≡ header_size = ground arith in
      (message h none, ground arith, (tt, refl, rw size, sym size))
  | inr more ↦
      let (l', cut, all, same) =
        skip-cut (header_bytes ∷ []) l (header_bytes ∷ l) 1 (n - header_size) refl refl v
          (ground arith) in
      let m' = message h (some (header_bytes ∷ l')) in
      let kept : payload m' ≡ take (n - header_size) (concat l) = same in
      (
        m',
        rw (ltb-eq_false n header_size lo, ltb-eq_false _ n hi, more, cut),
        (
          all,
          refl,
          kept,
          omega (
            arith,
            len-payload m' all,
            ap length kept,
            length-take (n - header_size) (concat l),
            len-payload (message h (some (header_bytes ∷ l))) v,
          ),
        ),
      )
]

-- On a valid message and a size between the header's and the message's, `ShrinkTo` does not panic;
-- the result is valid, has that size and the same header, and behind it the first bytes of what the
-- message held.
pub shrink_to-ShrinksTo :
    (n : ℕ) (m : OutMessage)
    → IsValid m
    → header_size ≤ n
    → n ≤ len m
    → (m' : OutMessage) × (shrink_to n m ≡ done m') × ShrinksTo n m m'
shrink_to-ShrinksTo n m v lo hi = shrink_parts n m.header m.sglist v lo hi

AllBytes-append : (k l : List Segment) → AllBytes k → AllBytes l → AllBytes (k ++ l)
AllBytes-append [] l hk hl = hl
AllBytes-append (header_bytes ∷ k) l hk hl = absurd hk
AllBytes-append (bytes b ∷ k) l hk hl = AllBytes-append k l hk hl

pub concat-append : (k l : List Segment) → concat (k ++ l) ≡ concat k ++ concat l
concat-append [] l = refl
concat-append (header_bytes ∷ k) l = concat-append k l
concat-append (bytes b ∷ k) l =
    ap (◌++◌ b) (concat-append k l) ∙ sym (append_assoc b (concat k) (concat l))

-- `Append` of segments other than the header keeps a valid message valid and adds them behind what
-- it holds.
pub append-payload :
    (m : OutMessage) (l : List Segment)
    → IsValid m
    → AllBytes l
    → IsValid (append m l) × (payload (append m l) ≡ payload m ++ concat l)
unfolding append
append-payload m l v h = go m.sglist v
  where
    go :
        (o : Option (List Segment))
        → IsValidList o
        → IsValidList (some (with_header o ++ l))
          × (concat (with_header o ++ l) ≡ list_payload o ++ concat l)
    go none v = (h, refl)
    go (some []) v = absurd v
    go (some (bytes b ∷ k)) v = absurd v
    go (some (header_bytes ∷ k)) v = (AllBytes-append k l v h, concat-append k l)
