-- ===== src/Conversions/Exchange.antt =====
-- The state of a conversion: the message read and the message for the reply. A conversion gives a
-- value, or an error, or panics; after an error the messages are only put back, so they are not kept.
use fuse.Base.{
  ℕ,
  suc,
  ◌-◌,
  Bool,
  true,
  false,
  ◌||◌,
  not,
  Option,
  none,
  some,
  [],
  ◌∷◌,
  length,
  take,
  drop,
  Bytes.{Bytes},
  done,
  panic,
  ltb,
  ◌==◌,
  if◌then◌else◌,
}
use fuse.Buffer.InMessage
use fuse.Buffer.InMessage.{InMessage, InHeader, Slice, slice_bytes}
use fuse.Buffer.OutMessage
use fuse.Buffer.OutMessage.{OutMessage}
use fuse.Fuseops.Types.{OpContext, Buffer, nil, in_message, in_segment}

pub record Exchange : Type 0 where
  pub incoming : InMessage
  pub outgoing : OutMessage

pub data Conversion (A : Type 0) : Type 0 where
  ok : A → Conversion A
  corrupt : Conversion A
  panicked : Conversion A

abbrev pub M : Type 0 → Type 0
M A = Exchange → Conversion (A × Exchange)

infixl 5 ◌>>=◌ ◌>>◌
abbrev pub ◌>>=◌ : {A B : Type 0} → M A → (A → M B) → M B
◌>>=◌ m f x = elim (m x) [ ok (a, x') ↦ f a x' | corrupt ↦ corrupt | panicked ↦ panicked ]

abbrev pub ◌>>◌ : {A B : Type 0} → M A → M B → M B
m >> k = m >>= λ _. k

abbrev pub pure : {A : Type 0} → A → M A
pure a x = ok (a, x)

abbrev pub reject : {A : Type 0} → M A
reject x = corrupt

abbrev pub reject_if : Bool → M (Unit {0})
reject_if true x = corrupt
reject_if false x = ok (tt, x)

-- What a call that finds nothing makes of the conversion: an error, or a panic.
abbrev pub or_reject : {A : Type 0} → Option A → M A
or_reject none x = corrupt
or_reject (some a) x = ok (a, x)

abbrev pub or_panic : {A : Type 0} → Option A → M A
or_panic none x = panicked
or_panic (some a) x = ok (a, x)

-- The bytes of the slice that the incoming message gave, which stay as they are.
abbrev pub consumed : Exchange → Option Slice × InMessage → Option (Bytes × Exchange)
consumed x (none, m) = none
consumed x (some s, m) = some (slice_bytes x.incoming.storage s, record x { incoming = m })

-- `(*input)(inMsg.Consume(size))`, and the check for `nil` behind it.
unfoldable pub take_struct : ℕ → M Bytes
take_struct n x = elim (consumed x (InMessage.consume n x.incoming)) [
  | none ↦ corrupt
  | some r ↦ ok r
]

-- `inMsg.ConsumeBytes(inMsg.Len())`; a `nil` slice would have no bytes.
unfoldable pub take_rest : M Bytes
take_rest x = elim (consumed x (InMessage.consume_bytes (InMessage.len x.incoming) x.incoming)) [
  | none ↦ ok ([], x)
  | some r ↦ ok r
]

-- `bytes.IndexByte(name, '\x00')`
unfoldable pub index_nul : Bytes → Option ℕ
index_nul [] = none
index_nul (b ∷ bs) =
    let rest = index_nul bs in
    if b == 0 then some 0 else elim rest [ none ↦ none | some i ↦ some (suc i) ]

-- The last byte is NUL; an empty string has none.
unfoldable pub ends_nul : Bytes → Bool
ends_nul [] = false
ends_nul (b ∷ []) = b == 0
ends_nul (b ∷ c ∷ bs) = ends_nul (c ∷ bs)

-- A name that is all but the last byte, which is NUL.
unfoldable pub whole_name : Bytes → M Bytes
unfolding ends_nul
whole_name b = do reject_if (not (ends_nul b)); pure (take (length b - 1) b)

-- A name up to the first NUL.
unfoldable pub name_before_nul : Bytes → M Bytes
unfolding index_nul
name_before_nul b = do i ← or_reject (index_nul b); pure (take i b)

-- `b[i:j]`, which panics unless `i <= j <= len(b)`.
abbrev pub slice : ℕ → ℕ → Bytes → Option Bytes
slice i j b = if ltb j i || ltb (length b) j then none else some (take (j - i) (drop i b))

-- `outMsg.Grow(n)`, for a buffer of the op.
unfoldable pub grow_buffer : ℕ → M Buffer
grow_buffer n x = elim (OutMessage.grow n x.outgoing) [
  | panic ↦ panicked
  | done (i, m) ↦ ok (in_segment i n, record x { outgoing = m })
]

-- `inMsg.GetFree(n)`
abbrev pub free_slice : Option Slice → Buffer
free_slice none = nil
free_slice (some s) = in_message s

unfoldable pub free_buffer : ℕ → M Buffer
free_buffer n x = ok (free_slice (InMessage.get_free n x.incoming), x)

unfoldable pub op_context : InHeader → OpContext
op_context h = record { fuse_id = h.unique; pid = h.pid; uid = h.uid }
