-- ===== src/Buffer/InMessage/Accepted.antt =====
-- What a message is after `Init` has accepted the bytes of a request.
use fuse.Base.{
  ℕ,
  min,
  ◌+◌,
  ◌-◌,
  ◌≤◌,
  ◌≡◌,
  ap,
  ◌∙◌,
  ◌++◌,
  length,
  drop,
  take,
  sym,
  length-append,
  length-drop,
  Bytes.{Bytes},
  ltb-eq_false,
  arith,
}
use fuse.Buffer.InMessage.{
  InMessage, InHeader, header_size, field_at, bytes, fill, header, accept, init,
}
use fuse.Buffer.InMessage.Cursor.{fill-front, field_at-append}

-- The header that stands at the front of the bytes.
abbrev pub header_of : Bytes → InHeader
header_of b = record {
  len = field_at 0 4 b;
  opcode = field_at 4 4 b;
  unique = field_at 8 8 b;
  nodeid = field_at 16 8 b;
  uid = field_at 24 4 b;
  gid = field_at 28 4 b;
  pid = field_at 32 4 b;
}

module _ (m : InMessage) (b : Bytes) (fits : length b ≤ length m.storage)
    (whole : header_size ≤ length b) (size : field_at 0 4 b ≡ length b) where
  field-fill : (off w : ℕ) → off + w ≤ 40 → field_at off w (fill m.storage b) ≡ field_at off w b
  field-fill off w in_header =
      ap (field_at off w) (fill-front m.storage b fits)
      ∙ field_at-append off w b (drop (length b) m.storage) (omega arith)

  -- The message holds the bytes in the front of its storage.
  abbrev pub accepted : InMessage
  accepted = record {
    storage = fill m.storage b;
    size = length b;
    remaining = record { off = 40; len = length b - 40 };
  }

  pub init-accepted : (E : Type 0) → (init {E = E} m (bytes b)).0 ≡ accepted
  unfolding init accept header
  init-accepted E =
      let n : min (length b) (length m.storage) ≡ length b = omega arith in
      let long = ltb-eq_false (length b) 40 whole in
      let read : field_at 0 4 (take (length b) b ++ drop (length b) m.storage) ≡ length b =
        ap (λ k. field_at 0 4 (take k b ++ drop k m.storage)) (sym n)
        ∙ field-fill 0 4 (omega arith)
        ∙ size in
      rw (n, long, read) (ground arith)

  pub header-accepted : header accepted ≡ header_of b
  unfolding header
  header-accepted = λ i. record {
    len = field-fill 0 4 (omega arith) i;
    opcode = field-fill 4 4 (omega arith) i;
    unique = field-fill 8 8 (omega arith) i;
    nodeid = field-fill 16 8 (omega arith) i;
    uid = field-fill 24 4 (omega arith) i;
    gid = field-fill 28 4 (omega arith) i;
    pid = field-fill 32 4 (omega arith) i;
  }

  pub length-accepted : length accepted.storage ≡ length m.storage
  length-accepted = omega (
    arith,
    ap length (fill-front m.storage b fits),
    length-append b (drop (length b) m.storage),
    length-drop (length b) m.storage,
  )
