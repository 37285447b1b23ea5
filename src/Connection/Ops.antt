-- ===== src/Connection/Ops.antt =====
-- connection.go: `ReadOp` and `Reply`. What a connection keeps is its freelists, the requests in flight
-- and what the reads of the device will give. The loop of `ReadOp` runs on fuel; a run on an interrupt
-- reads at least one message.
pub mod Reads
pub mod Interrupts
pub mod Replies
mod Tests
use fuse.Base.{
  ℕ,
  zero,
  suc,
  Bool,
  true,
  false,
  Option,
  none,
  some,
  List,
  [],
  ◌∷◌,
  ◌++◌,
  ◌⊎◌,
  inl,
  inr,
  length,
  Outcome,
  done,
  panic,
  ◌>>=◌,
  ◌-◌,
  ◌%◌,
  ◌^◌,
  Bytes.{Bytes},
}
use fuse.Kernel.Protocol.{Protocol}
use fuse.Kernel.Layout.{pack}
use fuse.Buffer.InMessage
use fuse.Buffer.InMessage.{InMessage, ReadResult}
use fuse.Buffer.OutMessage
use fuse.Buffer.OutMessage.{OutMessage, Segment, OutHeader, header_bytes}
use fuse.Fuseops.{Op}
use fuse.Fuseops
use fuse.Conversions.Exchange.{Exchange, Conversion, ok, corrupt, panicked}
use fuse.Conversions.Incoming.{convert_in_message}
use fuse.Conversions.Responses.{OpError, kernel_response}
use fuse.Connection.Messages.{
  Pools, DevError, ReadError, WriteError, write_failed, read_message, get_out_message,
  put_out_message, put_in_message, write_message,
}
use fuse.Connection.Logging.{should_log_error, callback_for_op}
use fuse.Connection.Requests.{Requests, begin_op, finish_op, handle_interrupt}

-- What `ReadOp` and `Reply` use of `MountConfig`, and the protocol that was agreed on.
pub record Config : Type 0 where
  pub page_size : ℕ
  pub use_vectored_read : Bool
  pub protocol : Protocol
  pub has_error_logger : Bool

pub record Session : Type 0 where
  pub pools : Pools
  pub requests : Requests
  pub reads : List (ReadResult DevError)

-- `opState`
pub record OpState : Type 0 where
  pub in_msg : InMessage
  pub out_msg : OutMessage
  pub op : Op

-- `waiting` is a loop that has not got an answer from the device.
pub data ReadOpResult : Type 0 where
  got : Option ℕ → OpState → Session → ReadOpResult
  failed : ReadError → Session → ReadOpResult
  not_converted : Session → ReadOpResult
  waiting : ReadOpResult
  panics : ReadOpResult
  out_of_fuel : ReadOpResult

-- `op.(*interruptOp)`
abbrev pub interrupted_id : Op → Option ℕ
interrupted_id (Fuseops.interrupt o) = some o.fuse_id
interrupted_id _ = none

abbrev pub begun : OpState → Session → Outcome (Option ℕ × Requests) → ReadOpResult
begun st c panic = panics
begun st c (done (ctx, r)) = got ctx st (record c { requests = r })

-- The messages of an interrupt are not put back.
abbrev pub hand_over :
    ℕ → Exchange → Op → Session → (Session → ReadOpResult) → Option ℕ → ReadOpResult
hand_over ctx x op c go_on (some id) =
    go_on (record c { requests = handle_interrupt id c.requests })
hand_over ctx x op c go_on none =
    let h = InMessage.header x.incoming in
    begun (record { in_msg = x.incoming; out_msg = x.outgoing; op = op }) c
      (begin_op h.opcode h.unique ctx c.requests)

-- On an error only the message for the reply is put back.
abbrev pub converted :
    ℕ → Exchange → Session → (Session → ReadOpResult) → Conversion (Op × Exchange) → ReadOpResult
converted ctx x c go_on (ok (op, x')) = hand_over ctx x' op c go_on (interrupted_id op)
converted ctx x c go_on corrupt =
    not_converted (record c { pools = put_out_message x.outgoing c.pools })
converted ctx x c go_on panicked = panics

abbrev pub convert_message :
    Config → ℕ → InMessage → Session → (Session → ReadOpResult) → ReadOpResult
convert_message cfg ctx m c go_on =
    let (out, pools) = get_out_message c.pools in
    let x : Exchange = record { incoming = m; outgoing = out } in
    converted ctx x (record c { pools = pools }) go_on
      (convert_in_message cfg.use_vectored_read cfg.protocol x)

-- One run of the loop, on what `readMessage` gave.
abbrev pub after_read :
    Config
    → ℕ
    → Session
    → (Session → ReadOpResult)
    → Option ((InMessage ⊎ ReadError) × Pools × List (ReadResult DevError))
    → ReadOpResult
after_read cfg ctx c go_on none = waiting
after_read cfg ctx c go_on (some (inr e, pools, rs)) =
    failed e (record c { pools = pools; reads = rs })
after_read cfg ctx c go_on (some (inl m, pools, rs)) =
    convert_message cfg ctx m (record c { pools = pools; reads = rs }) go_on

-- `ctx` is the context that `context.WithCancel` makes.
unfoldable pub read_op : Config → ℕ → ℕ → Session → ReadOpResult
read_op cfg ctx zero c = out_of_fuel
read_op cfg ctx (suc n) c =
    after_read cfg ctx c (read_op cfg ctx n) (read_message cfg.page_size c.reads c.pools)

-- The bytes of the header: the error is `-int32(errno)`.
unfoldable pub out_header_bytes : OutHeader → Bytes
out_header_bytes h =
    pack ((4, h.len) ∷ (4, (2 ^ 32 - h.error % 2 ^ 32) % 2 ^ 32) ∷ (8, h.unique) ∷ [])

-- What a call of `writev` with the list hands to the kernel.
unfoldable pub sent_bytes : OutHeader → List Segment → Bytes
unfolding out_header_bytes
sent_bytes h [] = []
sent_bytes h (header_bytes ∷ l) = out_header_bytes h ++ sent_bytes h l
sent_bytes h (OutMessage.bytes b ∷ l) = b ++ sent_bytes h l

-- The bytes written, if any, and the error. The result of the system call is an argument: an errno or
-- a count.
abbrev pub send : ℕ ⊎ ℕ → OutMessage → Bytes × Option WriteError
send w m = elim m.sglist [
  | none ↦ (out_header_bytes m.header, write_message w (out_header_bytes m.header))
  | some l ↦
      (sent_bytes m.header l, elim w [ inl errno ↦ some (write_failed errno) | inr n ↦ none ])
]

-- The bytes that were sent, if any, the error of that, the callback that was called, and whether the
-- error of the op was logged.
pub record Replied : Type 0 where
  pub session : Session
  pub sent : Option Bytes
  pub error : Option WriteError
  pub called : Option ℕ
  pub logged : Bool

-- `outMsg.Sglist = nil`, unless the write failed.
abbrev pub cleared : Option WriteError → OutMessage → OutMessage
cleared none m = record m { sglist = none }
cleared (some e) m = m

abbrev pub put_back : InMessage → OutMessage → Session → Session
put_back i o c = record c { pools = put_out_message o (put_in_message i c.pools) }

-- The call of `writev` or `writeMessage`, if there is a response, and the deferred function: the
-- callback, and then the messages.
abbrev pub finish_reply : OpState → ℕ ⊎ ℕ → Bool → Session → Bool × OutMessage → Replied
finish_reply st w logged c (true, m) = record {
  session = put_back st.in_msg m c;
  sent = none;
  error = none;
  called = callback_for_op st.op;
  logged = logged;
}
finish_reply st w logged c (false, m) =
    let (b, err) = send w m in
    record {
      session = put_back st.in_msg (cleared err m) c;
      sent = some b;
      error = err;
      called = callback_for_op st.op;
      logged = logged;
    }

unfoldable pub reply :
    Config → (ℕ → ℕ → ℕ) → OpState → Option OpError → ℕ ⊎ ℕ → Session → Outcome Replied
unfolding callback_for_op should_log_error
reply cfg until st err w c = do
  let h = InMessage.header st.in_msg
  r ← finish_op h.opcode h.unique c.requests
  let logged = should_log_error cfg.has_error_logger st.op err
  out ← kernel_response st.in_msg.storage until cfg.protocol h.unique st.op err st.out_msg
  done (finish_reply st w logged (record c { requests = r }) out)
