-- ===== src/Conversions/Replies/Segments.antt =====
-- conversions.go: what the steps of `kernelResponseForOp` append, and what they shrink.
use fuse.Base.{
  ℕ,
  ◌+◌,
  ◌-◌,
  ◌<◌,
  ◌≤◌,
  ◌≡◌,
  refl,
  sym,
  ap,
  ◌∙◌,
  false,
  some,
  List,
  [],
  ◌∷◌,
  ◌++◌,
  append-nil,
  subst,
  ◌>>=◌,
  length,
  take,
  set-append_length,
  Bytes.{Bytes},
  done,
  ◌==◌,
  Bool-cases,
  ◌⊎◌,
  inl,
  inr,
  arith,
  replicate,
}
use fuse.Buffer.OutMessage
use fuse.Buffer.OutMessage.{
  OutMessage, Segment, header_size, header_bytes, append, append_string, with_header, grow,
  shrink_to, len,
}
use fuse.Buffer.OutMessage.Shrink.{
  IsValid, AllBytes, concat, payload, append-payload, shrink_to-ShrinksTo, len-payload,
}
use fuse.Fuseops.Types.{Buffer, in_message, nil, in_segment}
use fuse.Conversions.Outgoing.{put_struct}
use fuse.Conversions.Responses.{
  buffer_length, segments, read_response, write_xattr_size, xattr_response,
}
use fuse.Conversions.Replies.{xattr_bytes, Answers}

pub append_bytes_Answers :
    (b : Bytes) (m : OutMessage)
    → IsValid m
    → Answers (payload m ++ b) m (done (append m (OutMessage.bytes b ∷ [])))
unfolding append
append_bytes_Answers b m v =
    let (valid, holds) = append-payload m (OutMessage.bytes b ∷ []) v tt in
    (
      append m (OutMessage.bytes b ∷ []),
      refl,
      valid,
      refl,
      holds ∙ ap (◌++◌ (payload m)) (append-nil b),
    )

-- A structure is appended.
put_struct_lem :
    (n : ℕ) (b : Bytes) (m : OutMessage)
    → 0 < n
    → put_struct n b m ≡ done (append m (OutMessage.bytes (take n b) ∷ []))
unfolding put_struct grow append
put_struct_lem n b m pos =
    let some_asked : (n == 0) ≡ false = ground arith in
    rw some_asked (
      ap (λ l. done (record m { sglist = some l }))
        (set-append_length (with_header m.sglist) (OutMessage.bytes (replicate n 0))
          (OutMessage.bytes (take n b)) []))

pub put_struct-Answers :
    (n : ℕ) (b : Bytes) (m : OutMessage)
    → IsValid m
    → 0 < n
    → Answers (payload m ++ take n b) m (put_struct n b m)
put_struct-Answers n b m v pos =
    let (m', ran, valid, same, holds) = append_bytes_Answers (take n b) m v in
    (m', put_struct_lem n b m pos ∙ ran, valid, same, holds)

pub shrink_to-Answers :
    (n : ℕ) (m : OutMessage)
    → IsValid m
    → n ≤ length (payload m)
    → Answers (take n (payload m)) m (shrink_to (header_size + n) m)
shrink_to-Answers n m v fits =
    let (m', ran, (valid, same, holds, size)) =
      shrink_to-ShrinksTo (header_size + n) m v (omega arith) (omega (arith, len-payload m v)) in
    (
      m',
      ran,
      valid,
      same,
      holds
          ∙ ap (λ k. take k (payload m)) {x = header_size + n - header_size} {y = n} (omega arith),
    )

-- A second structure behind the first.
pub two_structs_Answers :
    (n k : ℕ) (b c : Bytes) (m : OutMessage)
    → IsValid m
    → 0 < n
    → 0 < k
    → Answers (payload m ++ take n b ++ take k c) m (put_struct n b m >>= put_struct k c)
two_structs_Answers n k b c m v pos pos' =
    let (m', ran, valid, same, holds) = put_struct-Answers n b m v pos in
    let (m'', ran', valid', same', holds') = put_struct-Answers k c m' valid pos' in
    (m'', rw (ran, ◌>>=◌) ran', valid', same' ∙ same, holds' ∙ ap (λ l. l ++ take k c) holds)

AllBytes-segments : (l : List Bytes) → AllBytes (segments l)
AllBytes-segments [] = tt
AllBytes-segments (b ∷ l) = AllBytes-segments l

pub AllBytes-read_response :
    (storage : Bytes) (dst : Buffer) (l : List Bytes) → AllBytes (read_response storage dst l)
unfolding read_response
AllBytes-read_response storage nil l = AllBytes-segments l
AllBytes-read_response storage (in_message s) l = tt
AllBytes-read_response storage (in_segment i n) l = AllBytes-segments l

pub read_Answers :
    (n : ℕ) (l : List Segment) (m : OutMessage)
    → IsValid m
    → AllBytes l
    → n ≤ length (payload m ++ concat l)
    → Answers (take n (payload m ++ concat l)) m (shrink_to (header_size + n) (append m l))
unfolding append
read_Answers n l m v all fits =
    let (valid, holds) = append-payload m l v all in
    let (m', ran, valid', same, holds') =
      shrink_to-Answers n (append m l) valid (subst (λ b. n ≤ length b) (sym holds) fits) in
    (m', ran, valid', same, holds' ∙ ap (take n) holds)

pub xattr_Answers :
    (dst : Buffer) (n : ℕ) (m : OutMessage)
    → IsValid m
    → (buffer_length dst ≡ 0) ⊎ (n ≤ length (payload m))
    → Answers (xattr_bytes dst n (payload m)) m (xattr_response dst n m)
unfolding write_xattr_size
xattr_Answers dst n m v fits = elim (Bool-cases (buffer_length dst == 0)) [
  | inl asks_size ↦ rw asks_size (put_struct-Answers 8 _ m v (omega arith))
  | inr has_buffer ↦ rw has_buffer (shrink_to-Answers n m v (ground arith))
]
