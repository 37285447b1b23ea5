-- ===== src/Buffer/OutMessage.antt =====
-- internal/buffer/out_message.go: a message for the kernel, as a header and a scatter-gather list.
-- The first element of the list is a slice of the header itself, so it shows the header's current
-- value; `Grow` and `Append` add segments behind it.
pub mod Shrink
use fuse.Base.{
  ℕ,
  suc,
  ◌+◌,
  ◌-◌,
  ◌||◌,
  Option,
  none,
  some,
  List,
  [],
  ◌∷◌,
  ◌++◌,
  length,
  take,
  replicate,
  set,
  get_elem?,
  Bytes.{Bytes},
  Outcome,
  done,
  panic,
  ◌>>=◌,
  ltb,
  leb,
  ◌==◌,
  if◌then◌else◌,
}

-- `fusekernel.OutHeader`
pub record OutHeader : Type 0 where
  pub len : ℕ  -- uint32
  pub error : ℕ  -- int32, the errno whose negation is stored
  pub unique : ℕ  -- uint64

abbrev pub header_size : ℕ
header_size = 16

pub data Segment : Type 0 where
  header_bytes : Segment
  bytes : Bytes → Segment

pub record OutMessage : Type 0 where
  pub header : OutHeader
  pub sglist : Option (List Segment)

abbrev pub segment_length : Segment → ℕ
segment_length header_bytes = header_size
segment_length (bytes b) = length b

abbrev pub zero_header : OutHeader
zero_header = record { len = 0; error = 0; unique = 0 }

unfoldable pub reset : OutMessage → OutMessage
reset m = record m { header = zero_header; sglist = none }

-- The `if` of `Append`, on the list.
abbrev pub with_header : Option (List Segment) → List Segment
with_header none = header_bytes ∷ []
with_header (some l) = l

unfoldable pub append : OutMessage → List Segment → OutMessage
append m src = record m { sglist = some (with_header m.sglist ++ src) }

unfoldable pub append_string : OutMessage → Bytes → OutMessage
unfolding append
append_string m src = append m (bytes src ∷ [])

-- `&b[0]` panics on an empty buffer. The pointer is the index of the new segment.
unfoldable pub grow : ℕ → OutMessage → Outcome (ℕ × OutMessage)
unfolding append
grow n m =
    let m' = append m (bytes (replicate n 0) ∷ []) in
    if n == 0 then panic else done (length (with_header m.sglist), m')

unfoldable pub segments_length : List Segment → ℕ
segments_length [] = 0
segments_length (s ∷ l) = segment_length s + segments_length l

sglist_length : Option (List Segment) → ℕ
unfolding segments_length
sglist_length none = header_size
sglist_length (some l) = segments_length l

unfoldable pub len : OutMessage → ℕ
unfolding sglist_length
len m = sglist_length m.sglist

-- The loop of `ShrinkTo`: `i` segments are kept whole, `l` is the rest of the list.
unfoldable pub skip : ℕ → ℕ → List Segment → ℕ × ℕ
skip i n [] = (i, n)
skip i n (s ∷ l) =
    let next = skip (i + 1) (n - segment_length s) l in
    if leb (segment_length s) n then next else (i, n)

-- `b[0:n]`; it is not called on the header's segment.
abbrev pub cut : ℕ → Segment → Segment
cut n header_bytes = header_bytes
cut n (bytes b) = bytes (take n b)

-- What follows the loop.
unfoldable pub cut_at : List Segment → ℕ → ℕ → Outcome (List Segment)
cut_at l i n = if n == 0 then done (take i l) else elim (get_elem? l i) [
  | none ↦ panic
  | some s ↦ if ltb (segment_length s) n then panic else done (take (i + 1) (set l i (cut n s)))
]

abbrev pub behind_first : List Segment → List Segment
behind_first [] = []
behind_first (_ ∷ l) = l

shrink_list : ℕ → Option (List Segment) → Outcome (Option (List Segment))
shrink_list n none = panic
shrink_list n (some l) = do
  let (i, left) = skip 1 (n - header_size) (behind_first l)
  l' ← cut_at l i left
  done (some l')

-- With no list the length is the size of the header, so the last branch has a list.
unfoldable pub shrink_to : ℕ → OutMessage → Outcome OutMessage
unfolding len shrink_list
shrink_to n m =
    if ltb n header_size || ltb (len m) n
    then panic
    else if n == header_size
    then done (record m { sglist = none })
    else shrink_list n m.sglist >>= λ l. done (record m { sglist = l })
