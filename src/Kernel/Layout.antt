-- ===== src/Kernel/Layout.antt =====
-- Structures in memory: a list of the widths of the fields, padding included.
use fuse.Base.{
  ℕ,
  zero,
  suc,
  ◌+◌,
  ◌^◌,
  ◌<◌,
  ◌≡◌,
  refl,
  ap,
  ◌∙◌,
  List,
  [],
  ◌∷◌,
  All,
  ◌≤◌,
  ◌-◌,
  take-take,
  drop-take,
  ◌++◌,
  length,
  take,
  drop,
  length-append,
  take-append,
  drop-append,
  Bytes.{Bytes, to_le, of_le, of_le-to_le, length-to_le},
  sym,
  arith,
}

-- `unsafe.Sizeof` and `unsafe.Offsetof`.
abbrev pub size_of : List ℕ → ℕ
size_of [] = 0
size_of (w ∷ ws) = w + size_of ws

abbrev pub offset_of : List ℕ → ℕ → ℕ
offset_of ws zero = 0
offset_of [] (suc i) = 0
offset_of (w ∷ ws) (suc i) = w + offset_of ws i

-- The field with a number, in the bytes of a structure.
unfoldable pub field : List ℕ → ℕ → Bytes → ℕ
field [] i b = 0
field (w ∷ ws) zero b = of_le (take w b)
field (w ∷ ws) (suc i) b = field ws i (drop w b)

-- The bytes of a structure, by the widths and the values of its fields.
unfoldable pub pack : List (ℕ × ℕ) → Bytes
pack [] = []
pack ((w, v) ∷ l) = to_le w v ++ pack l

abbrev pub widths : List (ℕ × ℕ) → List ℕ
widths [] = []
widths ((w, v) ∷ l) = w ∷ widths l

pub length-pack : (l : List (ℕ × ℕ)) → length (pack l) ≡ size_of (widths l)
unfolding pack
length-pack [] = refl
length-pack ((w, v) ∷ l) =
    omega (arith, length-append (to_le w v) (pack l), length-to_le w v, length-pack l)

abbrev pub value_at : List (ℕ × ℕ) → ℕ → ℕ
value_at [] i = 0
value_at ((w, v) ∷ l) zero = v
value_at ((w, v) ∷ l) (suc i) = value_at l i

abbrev pub width_at : List (ℕ × ℕ) → ℕ → ℕ
width_at [] i = 0
width_at ((w, v) ∷ l) zero = w
width_at ((w, v) ∷ l) (suc i) = width_at l i

-- A field whose value is in range is read back.
pub field-pack :
    (l : List (ℕ × ℕ)) (i : ℕ)
    → value_at l i < 256 ^ width_at l i
    → field (widths l) i (pack l) ≡ value_at l i
unfolding field pack
field-pack [] i h = refl
field-pack ((w, v) ∷ l) zero h =
    ap of_le (take-append (to_le w v) (pack l) w (sym (length-to_le w v))) ∙ of_le-to_le w v h
field-pack ((w, v) ∷ l) (suc i) h =
    ap (field (widths l) i) (drop-append (to_le w v) (pack l) w (sym (length-to_le w v)))
    ∙ field-pack l i h

-- Every value of the structure is in range.
abbrev pub IsPacked : List (ℕ × ℕ) → Type 0
IsPacked = All (λ f. f.1 < 256 ^ f.0)

value-IsPacked : (l : List (ℕ × ℕ)) (i : ℕ) → IsPacked l → value_at l i < 256 ^ width_at l i
value-IsPacked [] i h = omega arith
value-IsPacked (f ∷ l) zero h = h.0
value-IsPacked (f ∷ l) (suc i) h = value-IsPacked l i h.1

pub field-IsPacked :
    (l : List (ℕ × ℕ)) (i : ℕ) → IsPacked l → field (widths l) i (pack l) ≡ value_at l i
field-IsPacked l i h = field-pack l i (value-IsPacked l i h)

-- A field in the first `n` bytes is read from these alone.
pub field-take :
    (ws : List ℕ) (i n : ℕ) (b : Bytes)
    → offset_of ws (suc i) ≤ n
    → field ws i (take n b) ≡ field ws i b
unfolding field
field-take [] i n b h = refl
field-take (w ∷ ws) zero n b h = ap of_le (take-take w n b (omega arith))
field-take (w ∷ ws) (suc i) n b h =
    ap (field ws i) (drop-take w n b (omega arith))
    ∙ field-take ws i (n - w) (drop w b) (omega arith)
