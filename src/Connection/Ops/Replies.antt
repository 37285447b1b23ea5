-- ===== src/Connection/Ops/Replies.antt =====
-- connection.go: what `Reply` hands to the kernel and what it leaves behind.
use fuse.Base.{
  ℕ,
  ◌+◌,
  ◌≡◌,
  refl,
  sym,
  ap,
  ◌∙◌,
  false,
  Option,
  none,
  some,
  List,
  [],
  ◌∷◌,
  ◌++◌,
  append-nil,
  length,
  Word.{u32},
  done,
  ◌>>=◌,
  ◌==◌,
  ◌⊎◌,
  inl,
  inr,
  Bool-cases,
}
use fuse.Buffer.InMessage
use fuse.Buffer.OutMessage
use fuse.Buffer.OutMessage.{OutMessage, OutHeader, Segment, header_bytes, header_size}
use fuse.Buffer.OutMessage.Shrink.{IsValid, AllBytes, IsValidList, concat, payload, list_payload}
use fuse.Conversions.Responses.{OpError, error_number, no_response}
use fuse.Conversions.Replies.{IsAnswered, response_bytes}
use fuse.Conversions.Replies.Sending.{kernel_response_lem, kernel_response-error}
use fuse.Freelist
use fuse.Connection.Messages.{put_in_message, put_out_message}
use fuse.Connection.Logging.{should_log_error, callback_for_op}
use fuse.Connection.Requests.{Requests, op_forget, update, cancel, finish_op}
use fuse.Connection.Ops.{
  Config, Session, OpState, Replied, reply, finish_reply, send, sent_bytes, out_header_bytes,
}

-- `Reply` finishes an op whose ID is in flight, or a forget.
finish_op_lem :
    (op_code fuse_id f : ℕ) (c : Requests)
    → c.cancel_funcs fuse_id ≡ some f
    → (r : Requests) × (finish_op op_code fuse_id c ≡ done r)
unfolding finish_op
finish_op_lem op_code fuse_id f c busy = elim (Bool-cases (op_code == op_forget)) [
  | inl forget ↦ rw forget (c, refl)
  | inr other ↦
      rw (other, busy)
        (record (cancel f c) { cancel_funcs = update fuse_id none c.cancel_funcs }, refl)
]

sent_bytes-concat : (h : OutHeader) (l : List Segment) → AllBytes l → sent_bytes h l ≡ concat l
unfolding sent_bytes
sent_bytes-concat h [] all = refl
sent_bytes-concat h (header_bytes ∷ l) all = absurd all
sent_bytes-concat h (OutMessage.bytes b ∷ l) all = ap (◌++◌ b) (sent_bytes-concat h l all)

-- Whether by `write` or by `writev`, a valid message is sent as its header and what it holds.
send_lem :
    (w : ℕ ⊎ ℕ) (h : OutHeader) (o : Option (List Segment))
    → IsValidList o
    → (send w (record { header = h; sglist = o })).0 ≡ out_header_bytes h ++ list_payload o
unfolding sent_bytes
send_lem w h none v = sym (append-nil (out_header_bytes h))
send_lem w h (some []) v = absurd v
send_lem w h (some (OutMessage.bytes b ∷ l)) v = absurd v
send_lem w h (some (header_bytes ∷ l)) v = ap (◌++◌ (out_header_bytes h)) (sent_bytes-concat h l v)

-- What `Reply` hands to the kernel for an op without an error.
abbrev pub Sends : Config → (ℕ → ℕ → ℕ) → OpState → ℕ ⊎ ℕ → Session → Type 0
Sends cfg until st w c =
    let b = response_bytes st.in_msg.storage until cfg.protocol st.op (payload st.out_msg) in
    (r : Replied) × (reply cfg until st none w c ≡ done r)
    × (r.sent
        ≡ some (
            out_header_bytes (record {
              len = u32 (header_size + length b);
              error = st.out_msg.header.error;
              unique = (InMessage.header st.in_msg).unique;
            })
            ++ b))
    × (r.called ≡ callback_for_op st.op)
    × (r.session.pools.in_messages ≡ Freelist.put st.in_msg c.pools.in_messages)

-- When the request is in flight, the message for the reply is valid and the op has no error and is
-- one that is answered (`IsAnswered`), `Reply` does not panic, whatever the system call gives: it
-- hands to the kernel, in one message, a header with the length of the whole message modulo 2^32 and
-- the request's unique ID, and the bytes that `response_bytes` says of the op. It calls the op's
-- callback, if there is one, and puts the request's message on its freelist.
pub reply_lem :
    (cfg : Config) (until : ℕ → ℕ → ℕ) (st : OpState) (w : ℕ ⊎ ℕ) (f : ℕ) (c : Session)
    → c.requests.cancel_funcs (InMessage.header st.in_msg).unique ≡ some f
    → IsValid st.out_msg
    → IsAnswered st.in_msg.storage st.op (payload st.out_msg)
    → Sends cfg until st w c
unfolding reply put_in_message put_out_message
reply_lem cfg until st w f c busy v answered =
    let h = InMessage.header st.in_msg in
    let (r, finishes) = finish_op_lem h.opcode h.unique f c.requests busy in
    let (m, ran, valid, unique, error, holds, size) =
      kernel_response_lem st.in_msg.storage until cfg.protocol h.unique st.op st.out_msg v
        answered in
    let s : Session = record c { requests = r } in
    (
      finish_reply st w (should_log_error cfg.has_error_logger st.op none) s (false, m),
      rw (finishes, ◌>>=◌, ran) refl,
      ap some (
          send_lem w m.header m.sglist valid ∙ (λ i.
            out_header_bytes (record {
              len = (size ∙ ap (λ b. u32 (header_size + length b)) holds) i;
              error = error i;
              unique = unique i;
            })
            ++ holds i)),
      refl,
      refl,
    )

abbrev pub SendsError : Config → (ℕ → ℕ → ℕ) → OpState → OpError → ℕ ⊎ ℕ → Session → Type 0
SendsError cfg until st e w c =
    (r : Replied) × (reply cfg until st (some e) w c ≡ done r)
    × (r.sent
        ≡ some (
            out_header_bytes (record {
              len = header_size;
              error = error_number e;
              unique = (InMessage.header st.in_msg).unique;
            })))

-- When the request is in flight, the message for the reply is valid and the op has an error and a
-- response, `Reply` does not panic, whatever the system call gives, and hands to the kernel a bare header: its length, the errno, or
-- EIO for an error that is no errno, and the request's unique ID.
pub reply-error :
    (cfg : Config) (until : ℕ → ℕ → ℕ) (st : OpState) (e : OpError) (w : ℕ ⊎ ℕ) (f : ℕ)
    (c : Session)
    → c.requests.cancel_funcs (InMessage.header st.in_msg).unique ≡ some f
    → IsValid st.out_msg
    → no_response st.op ≡ false
    → SendsError cfg until st e w c
unfolding reply
reply-error cfg until st e w f c busy v responds =
    let h = InMessage.header st.in_msg in
    let (r, finishes) = finish_op_lem h.opcode h.unique f c.requests busy in
    let (m, ran, valid, same, holds, size) =
      kernel_response-error st.in_msg.storage until cfg.protocol h.unique st.op e st.out_msg v
        responds in
    let s : Session = record c { requests = r } in
    (
      finish_reply st w (should_log_error cfg.has_error_logger st.op (some e)) s (false, m),
      rw (finishes, ◌>>=◌, ran) refl,
      ap some (
          send_lem w m.header m.sglist valid
          ∙ (λ i. out_header_bytes (same i) ++ holds i)
          ∙ append-nil _),
    )
