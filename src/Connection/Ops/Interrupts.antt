-- ===== src/Connection/Ops/Interrupts.antt =====
-- connection.go: `ReadOp` on an INTERRUPT, which it handles by itself.
use fuse.Base.{
  ℕ,
  suc,
  ◌≤◌,
  ◌<◌,
  ◌≡◌,
  ◌^◌,
  refl,
  ap,
  ◌∙◌,
  Option,
  none,
  some,
  List,
  [],
  ◌∷◌,
  length,
  drop,
  Bytes.{Bytes},
}
use fuse.Kernel.Layout.{pack}
use fuse.Kernel.Requests.{opcode_number}
use fuse.Buffer.InMessage.{bytes, header_size, field_at}
use fuse.Conversions.Exchange.{Exchange}
use fuse.Conversions.Reading.{Holds}
use fuse.Conversions.Requests.{Request, body, interrupt}
use fuse.Conversions.Requests.Convert.{convert_in_message_lem}
use fuse.Connection.Messages.{get_in_message, get_out_message}
use fuse.Connection.Messages.Reading.{after_interrupts, read_message_whole}
use fuse.Connection.Requests.{Requests, interrupt_found, handle_interrupt}
use fuse.Connection.Ops.{Config, Session, read_op}

-- The cancellations after the one of a request, if it is in flight.
abbrev pub cancelled_with : Option ℕ → List ℕ → List ℕ
cancelled_with none l = l
cancelled_with (some f) l = f ∷ l

interrupt_found_lem :
    (o : Option ℕ) (c : Requests)
    → ((interrupt_found o c).cancel_funcs ≡ c.cancel_funcs)
      × ((interrupt_found o c).cancelled ≡ cancelled_with o c.cancelled)
interrupt_found_lem none c = (refl, refl)
interrupt_found_lem (some f) c = (refl, refl)

-- When the device gives, after any number of interrupted reads, the bytes of an INTERRUPT (a whole
-- header with the right length and the opcode 36, and behind it the 8 bytes of the ID of another
-- request), and they fit into the message that the freelist gives, `ReadOp` does not return:
-- it goes on as it does from a state in which the context of that request is cancelled, if the
-- request is in flight, the same requests are in flight as before, the freelists are without the two
-- messages that were taken, and the device is left with what came after. (The fuel is for two runs
-- or more.)
pub read_op_interrupt :
    (cfg : Config) (ctx n k id : ℕ) (b : Bytes) (c : Session)
    → header_size ≤ length b
    → field_at 0 4 b ≡ length b
    → field_at 4 4 b ≡ 36
    → drop header_size b ≡ pack ((8, id) ∷ [])
    → id < 256 ^ 8
    → length b ≤ length (get_in_message cfg.page_size c.pools).0.storage
    → (c' : Session) × (read_op cfg ctx
          (suc (suc n))
          (record c { reads = after_interrupts k (bytes b ∷ c.reads) })
        ≡ read_op cfg ctx (suc n) c')
      × (c'.requests.cancel_funcs ≡ c.requests.cancel_funcs)
      × (c'.requests.cancelled ≡ cancelled_with (c.requests.cancel_funcs id) c.requests.cancelled)
      × (c'.pools ≡ (get_out_message (get_in_message cfg.page_size c.pools).1).1)
      × (c'.reads ≡ c.reads)
unfolding read_op handle_interrupt opcode_number
read_op_interrupt cfg ctx n k id b c whole size is_op has_body small fits =
    let v = cfg.use_vectored_read in
    let q : Request = interrupt (record { unique = id }) in
    let (m, has_read, valid, left, head, _, _) =
      read_message_whole cfg.page_size k b c.reads c.pools fits whole size in
    let out = get_out_message (get_in_message cfg.page_size c.pools).1 in
    let x : Exchange = record { incoming = m; outgoing = out.0 } in
    let held : Holds (body cfg.protocol q) x = record { valid = valid; left = left ∙ has_body } in
    let (x', ran, _, _) =
      convert_in_message_lem v cfg.protocol x q (small, tt) held
        (ap (λ h. h.opcode) head ∙ is_op) in
    let (same, cancels) = interrupt_found_lem (c.requests.cancel_funcs id) c.requests in
    (
      record {
        pools = out.1;
        requests = interrupt_found (c.requests.cancel_funcs id) c.requests;
        reads = c.reads;
      },
      rw (has_read, ran) refl,
      same,
      cancels,
      refl,
      refl,
    )
