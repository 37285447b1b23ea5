-- ===== src/Connection/Messages/Reading.antt =====
-- The loop of `readMessage`, and the reuse of messages.
use fuse.Base.{
  ℕ,
  zero,
  suc,
  ◌≤◌,
  ◌≡◌,
  refl,
  ap,
  ◌∙◌,
  none,
  some,
  List,
  ◌∷◌,
  ◌++◌,
  length,
  drop,
  replicate,
  Bytes.{Bytes},
  inl,
  inr,
}
use fuse.Freelist.Order.{get-put}
use fuse.Buffer.InMessage
use fuse.Buffer.InMessage.{InMessage, ReadResult, bytes, failed, header_size, field_at}
use fuse.Buffer.InMessage.Cursor.{IsValid, view, init_accepts}
use fuse.Buffer.InMessage.Accepted.{
  header_of, accepted, init-accepted, header-accepted, length-accepted,
}
use fuse.Buffer.OutMessage.{reset}
use fuse.Connection.Messages.{
  Pools, DevError, hung_up, interrupted, end_of_file, verdict, conclude, attempts, settle,
  new_out_message, or_else, get_in_message, put_in_message, get_out_message, read_message,
}

-- A message for a reply is as new, whatever its last user left in it.
pub get_out_message_lem : (c : Pools) → (get_out_message c).0 ≡ new_out_message
unfolding get_out_message reset
get_out_message_lem c = refl

-- Reads that are interrupted leave the message alone and are tried again.
interrupted_attempts :
    (k : ℕ) (rs : List (ReadResult DevError)) (m : InMessage)
    → attempts (replicate k (failed interrupted) ++ rs) m ≡ attempts rs m
unfolding attempts InMessage.init
interrupted_attempts zero rs m = refl
interrupted_attempts (suc k) rs m = interrupted_attempts k rs m

accepted_attempt :
    (r : ReadResult DevError) (rs : List (ReadResult DevError)) (m : InMessage)
    → (InMessage.init m r).1 ≡ none
    → attempts (r ∷ rs) m ≡ some ((InMessage.init m r).0, none, rs)
unfolding attempts
accepted_attempt r rs m ran =
    ap (λ e. conclude (verdict e) (InMessage.init m r).0 rs (attempts rs (InMessage.init m r).0))
      ran

-- The device gives an error to any number of reads, each interrupted, and then `rs`.
abbrev pub after_interrupts : ℕ → List (ReadResult DevError) → List (ReadResult DevError)
after_interrupts k rs = replicate k (failed interrupted) ++ rs

-- The bytes of a request that fit are accepted, with the header and the body that they hold.
pub read_message_whole :
    (page_size k : ℕ) (b : Bytes) (rs : List (ReadResult DevError)) (c : Pools)
    → length b ≤ length (get_in_message page_size c).0.storage
    → header_size ≤ length b
    → field_at 0 4 b ≡ length b
    → (m' : InMessage) × (read_message page_size (after_interrupts k (bytes b ∷ rs)) c
        ≡ some (inl m', (get_in_message page_size c).1, rs))
      × IsValid m'
      × (view m' ≡ drop header_size b)
      × (InMessage.header m' ≡ header_of b)
      × (m'.size ≡ length b)
      × (length m'.storage ≡ length (get_in_message page_size c).0.storage)
unfolding read_message
read_message_whole page_size k b rs c fits whole size =
    let m : InMessage = (get_in_message page_size c).0 in
    let (ran, valid, body, _, _, _) = init_accepts {E = DevError} m b fits whole size in
    let m' : InMessage = (InMessage.init {E = DevError} m (bytes b)).0 in
    let same : m' ≡ accepted m b fits whole size = init-accepted m b fits whole size DevError in
    (
      m',
      ap (settle (get_in_message page_size c).1)
          (interrupted_attempts k (bytes b ∷ rs) m ∙ accepted_attempt (bytes b) rs m ran),
      valid,
      body,
      ap InMessage.header same ∙ header-accepted m b fits whole size,
      ap (λ r. r.size) same,
      ap (λ r. length r.storage) same ∙ length-accepted m b fits whole size,
    )

-- After any number of interrupted reads, the bytes of a request (a whole header with its length
-- field right) that fit into the message taken from the list are accepted: the call returns a valid
-- message that holds the body of the request behind the cursor, and the device is left with what
-- came after.
pub read_message_lem :
    (page_size k : ℕ) (b : Bytes) (rs : List (ReadResult DevError)) (c : Pools)
    → length b ≤ length (get_in_message page_size c).0.storage
    → header_size ≤ length b
    → field_at 0 4 b ≡ length b
    → (m' : InMessage) × (read_message page_size (after_interrupts k (bytes b ∷ rs)) c
        ≡ some (inl m', (get_in_message page_size c).1, rs))
      × IsValid m'
      × (view m' ≡ drop header_size b)
read_message_lem page_size k b rs c fits whole size =
    let (m', ran, valid, body, _, _, _) = read_message_whole page_size k b rs c fits whole size in
    (m', ran, valid, body)

get_in_message-put :
    (page_size : ℕ) (m : InMessage) (c : Pools)
    → get_in_message page_size (put_in_message m c) ≡ (m, c)
unfolding get_in_message put_in_message
get_in_message-put page_size m c =
    ap (λ r. (or_else (InMessage.new_in_message page_size) r.0, record c { in_messages = r.1 }))
      (get-put m c.in_messages)

-- When the device has hung up, after any number of interrupted reads, the caller gets `io.EOF` and
-- the message goes back to its list, from which the next call takes it.
pub read_message_hung_up :
    (page_size k : ℕ) (rs : List (ReadResult DevError)) (c : Pools)
    → (c' : Pools) × (read_message page_size (after_interrupts k (failed hung_up ∷ rs)) c
        ≡ some (inr end_of_file, c', rs))
      × (get_in_message page_size c' ≡ get_in_message page_size c)
unfolding read_message attempts InMessage.init
read_message_hung_up page_size k rs c =
    let m = (get_in_message page_size c).0 in
    let c₁ = (get_in_message page_size c).1 in
    (
      put_in_message m c₁,
      ap (settle c₁) (interrupted_attempts k (failed hung_up ∷ rs) m),
      get_in_message-put page_size m c₁,
    )
