-- ===== src/Connection/Ops/Reads.antt =====
-- connection.go: `ReadOp` on the requests that the kernel sends.
use fuse.Base.{
  true,
  false,
  Bool,
  ℕ,
  suc,
  ◌≤◌,
  ◌≡◌,
  refl,
  ap,
  ap₂,
  if◌then◌else◌,
  ◌∙◌,
  Option,
  none,
  some,
  ◌∷◌,
  length,
  drop,
  Bytes.{Bytes},
  done,
  ◌==◌,
  inl,
  inr,
  Bool-cases,
}
use fuse.Kernel.Requests.{opcode_number}
use fuse.Buffer.InMessage
use fuse.Buffer.InMessage.{InMessage, InHeader, ReadResult, bytes, header_size, field_at}
use fuse.Fuseops.{Op}
use fuse.Conversions.Exchange.{Exchange}
use fuse.Conversions.Reading.{Holds}
use fuse.Buffer.InMessage.Accepted.{header_of}
use fuse.Conversions.Requests.Ops.{op, Room, room_of, reply_for, segments}
use fuse.Conversions.Requests.{
  sync_fs, readdir, getxattr, listxattr, Request, opcode, body, IsSent, lookup, unlink, rmdir,
  removexattr, mkdir, mknod, create, symlink, rename, link, setxattr, open_file, opendir, getattr,
  readlink, statfs, read, write, release, releasedir, fsync, fsyncdir, flush, fallocate, setattr,
  forget, batch_forget, interrupt, init,
}
use fuse.Conversions.Requests.Convert.{convert_in_message_lem}
use fuse.Connection.Messages.{get_in_message, get_out_message, new_out_message}
use fuse.Connection.Messages.Reading.{after_interrupts, read_message_whole, get_out_message_lem}
use fuse.Connection.Requests.{Requests, begin_op, record_cancel_func}
use fuse.Connection.Ops.{
  Config, Session, OpState, ReadOpResult, got, interrupted_id, begun, hand_over, read_op,
}

-- The context of a request that is begun, and the requests in flight: a FORGET, whose opcode is 2, has
-- the parent context and is not recorded.
abbrev pub begun_with : ℕ → ℕ → ℕ → Requests → Option ℕ × Requests
begun_with op_code id ctx c =
    if op_code == 2
    then (none, c)
    else (some ctx, record c { cancel_funcs = λ j. if j == id then some ctx else c.cancel_funcs j })

-- A request with an ID that is not in flight is begun.
begin_op_lem :
    (op_code fuse_id ctx : ℕ) (c : Requests)
    → c.cancel_funcs fuse_id ≡ none
    → begin_op op_code fuse_id ctx c ≡ done (begun_with op_code fuse_id ctx c)
unfolding begin_op record_cancel_func
begin_op_lem op_code fuse_id ctx c free = elim (Bool-cases (op_code == 2)) [
  | inl is_forget ↦ rw is_forget refl
  | inr other ↦ rw (other, free) refl
]

hand_over_lem :
    (ctx : ℕ) (x : Exchange) (o : Op) (c : Session) (go_on : Session → ReadOpResult)
    (r : Option ℕ × Requests)
    → interrupted_id o ≡ none
    → begin_op
        (InMessage.header x.incoming).opcode
        (InMessage.header x.incoming).unique
        ctx
        c.requests
      ≡ done r
    → hand_over ctx x o c go_on (interrupted_id o)
      ≡ got r.0
          (record { in_msg = x.incoming; out_msg = x.outgoing; op = o })
          (record c { requests = r.1 })
hand_over_lem ctx x o c go_on r no_id begins =
    rw no_id (ap (begun (record { in_msg = x.incoming; out_msg = x.outgoing; op = o }) c) begins)

-- The header is what the storage says.
header_same : (m m' : InMessage) → m.storage ≡ m'.storage → InMessage.header m ≡ InMessage.header m'
unfolding InMessage.header
header_same m m' same = λ i. InMessage.header (record m { storage = same i })

-- Interrupts are handled by `ReadOp` itself.
abbrev pub is_interrupt : Request → Bool
is_interrupt (interrupt s) = true
is_interrupt _ = false

-- No other request gives an interrupt.
op-is_interrupt :
    (v : Bool) (h : InHeader) (r : Room) (q : Request)
    → is_interrupt q ≡ false
    → interrupted_id (op v h r q) ≡ none
op-is_interrupt v h r (lookup name) e = refl
op-is_interrupt v h r (unlink name) e = refl
op-is_interrupt v h r (rmdir name) e = refl
op-is_interrupt v h r (removexattr name) e = refl
op-is_interrupt v h r (mkdir s name) e = refl
op-is_interrupt v h r (mknod s name) e = refl
op-is_interrupt v h r (create s name) e = refl
op-is_interrupt v h r (symlink name target) e = refl
op-is_interrupt v h r (rename s old new) e = refl
op-is_interrupt v h r (link s name) e = refl
op-is_interrupt v h r (setxattr s name value) e = refl
op-is_interrupt v h r (open_file s) e = refl
op-is_interrupt v h r (opendir s) e = refl
op-is_interrupt v h r (getattr s) e = refl
op-is_interrupt v h r sync_fs e = refl
op-is_interrupt v h r (readdir s) e = refl
op-is_interrupt v h r (getxattr s name) e = refl
op-is_interrupt v h r (listxattr s) e = refl
op-is_interrupt v h r readlink e = refl
op-is_interrupt v h r statfs e = refl
op-is_interrupt v h r (read s) e = refl
op-is_interrupt v h r (write s b) e = refl
op-is_interrupt v h r (release s) e = refl
op-is_interrupt v h r (releasedir s) e = refl
op-is_interrupt v h r (fsync s) e = refl
op-is_interrupt v h r (fsyncdir s) e = refl
op-is_interrupt v h r (flush s) e = refl
op-is_interrupt v h r (fallocate s) e = refl
op-is_interrupt v h r (setattr s g) e = refl
op-is_interrupt v h r (forget s) e = refl
op-is_interrupt v h r (batch_forget l) e = refl
op-is_interrupt v h r (interrupt s) e = cc
op-is_interrupt v h r (init s) e = refl

-- The bytes of a request as the kernel sends it.
pub record IsRequest (cfg : Config) (q : Request) (b : Bytes) : Type 0 where
  pub whole : header_size ≤ length b
  pub size : field_at 0 4 b ≡ length b
  pub is_op : field_at 4 4 b ≡ opcode_number (opcode q)
  pub has_body : drop header_size b ≡ body cfg.protocol q
  pub sent : IsSent q
  pub not_interrupt : is_interrupt q ≡ false

-- The message that the bytes are read into, from the front of its storage, and a new reply, which has
-- no segment but the header.
abbrev pub room_for : Config → Bytes → Session → Room
room_for cfg b c = record {
  used = length b;
  storage = length (get_in_message cfg.page_size c.pools).0.storage;
  segments = 1;
}

-- What `ReadOp` returns for the bytes of a request.
abbrev pub Gets : Config → ℕ → ℕ → ℕ → Request → Bytes → Session → Type 0
Gets cfg ctx n k q b c =
    (st : OpState) × (ctx' : Option ℕ) × (c' : Session) × (read_op cfg ctx (suc n)
        (record c { reads = after_interrupts k (bytes b ∷ c.reads) })
      ≡ got ctx' st c')
    × (st.op ≡ op cfg.use_vectored_read (header_of b) (room_for cfg b c) q)
    × (InMessage.header st.in_msg ≡ header_of b)
    × (st.out_msg ≡ reply_for q new_out_message)
    × (◌≡◌ {A = Option ℕ × Requests} (ctx', c'.requests)
        (begun_with (field_at 4 4 b) (field_at 8 8 b) ctx c.requests))
    × (c'.reads ≡ c.reads)

-- When the device gives, after any number of interrupted reads, the bytes of a request (a whole header
-- with the right length and the opcode of a request of any kind but an interrupt, and behind it the
-- request's body by the kernel's layout, with values as `IsSent` says), they fit into the message
-- that the freelist gives and its ID is not in flight, `ReadOp` returns on its first run. It returns
-- the op that the request asks for, with the inode and the context of the header in the bytes read,
-- and with its buffer, in the message read behind the request or in the reply. The message it keeps
-- has that header; the reply is new, but for the buffer. The request is in flight with the context
-- that is returned, or it is a FORGET and has none; the device is left with what came after.
pub read_op_request :
    (cfg : Config) (ctx n k : ℕ) (q : Request) (b : Bytes) (c : Session)
    → IsRequest cfg q b
    → length b ≤ length (get_in_message cfg.page_size c.pools).0.storage
    → c.requests.cancel_funcs (field_at 8 8 b) ≡ none
    → Gets cfg ctx n k q b c
unfolding read_op InMessage.header
read_op_request cfg ctx n k q b c is fits free =
    let v = cfg.use_vectored_read in
    let (m, has_read, valid, left, head, size, room) =
      read_message_whole cfg.page_size k b c.reads c.pools fits is.whole is.size in
    let out = get_out_message (get_in_message cfg.page_size c.pools).1 in
    let new : out.0 ≡ new_out_message =
      get_out_message_lem (get_in_message cfg.page_size c.pools).1 in
    let x : Exchange = record { incoming = m; outgoing = out.0 } in
    let o : Op = op v (InMessage.header m) (room_of x) q in
    let held : Holds (body cfg.protocol q) x = record {
      valid = valid;
      left = left ∙ is.has_body;
    } in
    let (x', ran, _, same) =
      convert_in_message_lem v cfg.protocol x q is.sent held (ap (λ h. h.opcode) head ∙ is.is_op) in
    let head' : InMessage.header x'.incoming ≡ header_of b =
      header_same x'.incoming m (ap (λ r. r.1) same) ∙ head in
    let begins : begin_op (InMessage.header x'.incoming).opcode
          (InMessage.header x'.incoming).unique ctx c.requests
        ≡ done (begun_with (field_at 4 4 b) (field_at 8 8 b) ctx c.requests) =
      ap (λ h. begin_op h.opcode h.unique ctx c.requests) head'
      ∙ begin_op_lem (field_at 4 4 b) (field_at 8 8 b) ctx c.requests free in
    let r = begun_with (field_at 4 4 b) (field_at 8 8 b) ctx c.requests in
    let c' : Session = record { pools = out.1; requests = c.requests; reads = c.reads } in
    let room_same : room_of x ≡ room_for cfg b c = λ i. record {
      used = size i;
      storage = room i;
      segments = ap (λ w. segments w.sglist) new i;
    } in
    (
      record { in_msg = x'.incoming; out_msg = x'.outgoing; op = o },
      r.0,
      record c' { requests = r.1 },
      rw (has_read, ran)
          (hand_over_lem ctx x' o c' (read_op cfg ctx n) r
            (op-is_interrupt v (InMessage.header m) (room_of x) q is.not_interrupt) begins),
      ap₂ (λ h r. op v h r q) head room_same,
      head',
      ap (λ r. r.0) same ∙ ap (reply_for q) new,
      refl,
      refl,
    )
