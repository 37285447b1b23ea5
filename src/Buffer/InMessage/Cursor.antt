-- ===== src/Buffer/InMessage/Cursor.antt =====
-- The cursor reads the message front to back, and the free space lies behind it.
use fuse.Base.{
  ℕ,
  ◌+◌,
  ◌-◌,
  ◌≤◌,
  ◌<◌,
  min,
  ◌≡◌,
  ◌↔◌,
  ◌⊎◌,
  inl,
  inr,
  refl,
  sym,
  ap,
  ap₂,
  ◌∙◌,
  none,
  some,
  ◌++◌,
  length,
  take,
  drop,
  length-append,
  length-take,
  length-drop,
  take-append,
  take-append_le,
  drop-append_le,
  take_of_length-le,
  take-add,
  drop-drop,
  take-append-drop,
  Bytes.{Bytes, of_le},
  ltb,
  ◌==◌,
  ◌||◌,
  Bool-cases,
  arith,
}
use fuse.Buffer.InMessage.{
  InMessage, Slice, header_size, slice_bytes, field_at, bytes, fill, header, accept, init, advance,
  front, get_free,
}

-- What is left lies in the message, and the message in the storage.
pub record IsValid (m : InMessage) : Type 0 where
  pub message_fits : m.size ≤ length m.storage
  pub remaining_fits : m.remaining.off + m.remaining.len ≤ m.size

-- The bytes that are left to consume.
abbrev pub view : InMessage → Bytes
view m = slice_bytes m.storage m.remaining

-- What is read within the first of two strings does not depend on the second.
slice-append :
    (off w : ℕ) (xs ys : Bytes)
    → off + w ≤ length xs
    → take w (drop off (xs ++ ys)) ≡ take w (drop off xs)
slice-append off w xs ys h =
    ap (take w) (drop-append_le xs ys off (omega arith))
    ∙ take-append_le (drop off xs) ys w (omega (arith, length-drop off xs))

pub field_at-append :
    (off w : ℕ) (xs ys : Bytes)
    → off + w ≤ length xs
    → field_at off w (xs ++ ys) ≡ field_at off w xs
field_at-append off w xs ys h = ap of_le (slice-append off w xs ys h)

-- Nor does what is read in the first `k` bytes depend on what follows them.
slice-take :
    (k off w : ℕ) (storage tail : Bytes)
    → off + w ≤ k
    → k ≤ length storage
    → take w (drop off (take k storage ++ tail)) ≡ take w (drop off storage)
slice-take k off w storage tail h fits =
    let front_fits : off + w ≤ length (take k storage) = omega (arith, length-take k storage) in
    slice-append off w (take k storage) tail front_fits
    ∙ sym (slice-append off w (take k storage) (drop k storage) front_fits)
    ∙ ap (λ st. take w (drop off st)) (take-append-drop k storage)

pub fill-front :
    (storage b : Bytes) → length b ≤ length storage → fill storage b ≡ b ++ drop (length b) storage
fill-front storage b h =
    let n : min (length b) (length storage) ≡ length b = omega arith in
    rw (n, take_of_length-le (length b) b (omega arith))

accept_lem :
    {E : Type 0} (m : InMessage) (n : ℕ)
    → n ≤ length m.storage
    → let (m', err) = accept {E = E} m n in
      ((err ≡ none) ↔ ((header_size ≤ n) × (field_at 0 4 m.storage ≡ n)))
      × (err ≡ none
          → IsValid m'
            × (m'.storage ≡ m.storage)
            × (m'.remaining ≡ record { off = header_size; len = n - header_size }))
unfolding accept
accept_lem m n fits = ground arith

-- The bytes `b` that were read stand at the front of the storage.
module _ (m : InMessage) (b rest : Bytes) (n : ℕ) (size : n ≡ length b)
    (stored : m.storage ≡ b ++ rest) where
  field_read :
      (off w : ℕ)
      → off + w ≤ header_size
      → header_size ≤ n
      → field_at off w m.storage ≡ field_at off w b
  field_read off w in_header whole = rw stored (field_at-append off w b rest (omega arith))

  view_read :
      header_size ≤ n
      → slice_bytes m.storage (record { off = header_size; len = n - header_size })
        ≡ drop header_size b
  view_read whole =
      rw (stored, drop-append_le b rest header_size (omega arith))
        (take-append (drop header_size b) rest (n - header_size)
          (omega (arith, length-drop header_size b)))

  accept_read :
      {E : Type 0}
      → n ≤ length m.storage
      → let (m', err) = accept {E = E} m n in
        ((err ≡ none) ↔ ((header_size ≤ length b) × (field_at 0 4 b ≡ length b)))
        × (err ≡ none
            → IsValid m'
              × (view m' ≡ drop header_size b)
              × (field_at 4 4 m'.storage ≡ field_at 4 4 b)
              × (field_at 8 8 m'.storage ≡ field_at 8 8 b)
              × (field_at 16 8 m'.storage ≡ field_at 16 8 b))
  accept_read {E} fits =
      let (iff, after) = accept_lem {E = E} m n fits in
      (
        (
          (λ e.
              let (whole, said) = iff.0 e in
              (omega arith, sym (field_read 0 4 (omega arith) whole) ∙ said ∙ size)),
          (λ c.
              let whole : header_size ≤ n = omega (arith, c.0) in
              iff.1 (whole, field_read 0 4 (omega arith) whole ∙ c.1 ∙ sym size)),
        ),
        λ e.
            let whole = (iff.0 e).0 in
            let (valid, same, left) = after e in
            (
              valid,
              ap₂ slice_bytes same left ∙ view_read whole,
              ap (field_at 4 4) same ∙ field_read 4 4 (omega arith) whole,
              ap (field_at 8 8) same ∙ field_read 8 8 (omega arith) whole,
              ap (field_at 16 8) same ∙ field_read 16 8 (omega arith) whole,
            ),
      )

init_read :
    {E : Type 0} (m : InMessage) (b : Bytes)
    → length b ≤ length m.storage
    → let (m', err) = init {E = E} m (bytes b) in
      ((err ≡ none) ↔ ((header_size ≤ length b) × (field_at 0 4 b ≡ length b)))
      × (err ≡ none
          → IsValid m'
            × (view m' ≡ drop header_size b)
            × ((header m').opcode ≡ field_at 4 4 b)
            × ((header m').unique ≡ field_at 8 8 b)
            × ((header m').nodeid ≡ field_at 16 8 b))
unfolding init header
init_read {E} m b fits =
    let n : min (length b) (length m.storage) ≡ length b = omega arith in
    accept_read (record m { storage = fill m.storage b }) b (drop (length b) m.storage)
      (min (length b) (length m.storage)) n (fill-front m.storage b fits)
      (omega (
        arith,
        n,
        ap length (fill-front m.storage b fits),
        length-append b (drop (length b) m.storage),
      ))

-- When the storage holds the bytes of a read, and these are a whole header whose length field is
-- their number, `Init` accepts them: the cursor is valid, what is left is all that follows the
-- header, and the header's opcode, unique ID and node ID are those of the bytes read.
pub init_accepts :
    {E : Type 0} (m : InMessage) (b : Bytes)
    → length b ≤ length m.storage
    → header_size ≤ length b
    → field_at 0 4 b ≡ length b
    → let (m', err) = init {E = E} m (bytes b) in
      (err ≡ none)
      × IsValid m'
      × (view m' ≡ drop header_size b)
      × ((header m').opcode ≡ field_at 4 4 b)
      × ((header m').unique ≡ field_at 8 8 b)
      × ((header m').nodeid ≡ field_at 16 8 b)
init_accepts {E} m b fits whole size =
    let (iff, after) = init_read {E = E} m b fits in
    let ran = iff.1 (whole, size) in
    let (valid, rest, opcode, unique, nodeid) = after ran in
    (ran, valid, rest, opcode, unique, nodeid)

pub split_view :
    (m : InMessage) (n : ℕ)
    → n ≤ m.remaining.len
    → slice_bytes m.storage (front m n) ++ view (advance m n) ≡ view m
split_view m n h =
    ap (◌++◌ (slice_bytes m.storage (front m n)))
      (ap (take (m.remaining.len - n)) (sym (drop-drop n m.remaining.off m.storage)))
    ∙ sym (take-add n (m.remaining.len - n) (drop m.remaining.off m.storage))
    ∙ ap (λ k. take k (drop m.remaining.off m.storage)) {x = n + (m.remaining.len - n)}
        {y = m.remaining.len} (omega arith)

-- What the storage holds after the user wrote `b` at a slice of it.
abbrev pub overwrite : Bytes → Slice → Bytes → Bytes
overwrite storage s b = take s.off storage ++ (b ++ drop (s.off + s.len) storage)

overwrite-header :
    (m : InMessage) (s : Slice) (b : Bytes)
    → header_size ≤ s.off
    → s.off ≤ length m.storage
    → header (record m { storage = overwrite m.storage s b }) ≡ header m
unfolding header
overwrite-header m s b behind fits = λ i. record {
  len = same 0 4 (omega arith) i;
  opcode = same 4 4 (omega arith) i;
  unique = same 8 8 (omega arith) i;
  nodeid = same 16 8 (omega arith) i;
  uid = same 24 4 (omega arith) i;
  gid = same 28 4 (omega arith) i;
  pid = same 32 4 (omega arith) i;
}
  where
    same :
        (off w : ℕ)
        → off + w ≤ header_size
        → field_at off w (overwrite m.storage s b) ≡ field_at off w m.storage
    same off w in_header =
        ap of_le (
          slice-take s.off off w m.storage (b ++ drop (s.off + s.len) m.storage) (omega arith) fits)

length-overwrite :
    (storage : Bytes) (s : Slice) (b : Bytes)
    → length b ≡ s.len
    → s.off + s.len ≤ length storage
    → length (overwrite storage s b) ≡ length storage
length-overwrite storage s b same fits =
    let tail = drop (s.off + s.len) storage in
    omega (
      arith,
      length-append (take s.off storage) (b ++ tail),
      length-append b tail,
      length-take s.off storage,
      length-drop (s.off + s.len) storage,
    )

-- In a valid message that holds at least a header, the free space lies in the storage, and writing
-- to it keeps the message valid and changes neither the header nor what is left; it is refused only
-- if it is empty or the storage has not got so much behind the message.
pub get_free_lem :
    (n : ℕ) (b : Bytes) (m : InMessage)
    → IsValid m
    → header_size ≤ m.size
    → length b ≡ n
    → ((get_free n m ≡ none) × ((n ≡ 0) ⊎ (length m.storage < m.size + n)))
      ⊎ ((s : Slice) × (get_free n m ≡ some s)
          × (s.len ≡ n)
          × (s.off + n ≤ length m.storage)
          × (let m' = record m { storage = overwrite m.storage s b } in
              IsValid m' × (view m' ≡ view m) × (header m' ≡ header m)))
unfolding get_free
get_free_lem n b m v whole same = elim (Bool-cases (n == 0 || ltb (length m.storage - m.size) n)) [
  | inl none_left ↦ inl (rw none_left, ground arith)
  | inr some_left ↦
      let s : Slice = record { off = m.size; len = n } in
      let fits : m.size + n ≤ length m.storage = ground arith in
      inr (
        s,
        rw some_left,
        refl,
        fits,
        (
          record {
            message_fits = omega (arith, length-overwrite m.storage s b same fits);
            remaining_fits = v.remaining_fits;
          },
          slice-take m.size m.remaining.off m.remaining.len m.storage
              (b ++ drop (m.size + n) m.storage) v.remaining_fits v.message_fits,
          overwrite-header m s b whole v.message_fits,
        ),
      )
]
