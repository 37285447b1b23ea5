-- ===== src/Connection/Ops/Tests.antt =====
-- A request to make a directory, read and answered.
use fuse.Base.{◌≡◌, refl, inr, [], ◌∷◌, ◌++◌, none, some, Bytes.{Bytes}, true, arith}
use fuse.Base.Bytes
use fuse.Kernel.Protocol.{version}
use fuse.Kernel.Layout.{pack}
use fuse.Kernel.Requests.{opcode_number, mkdir_in_size}
use fuse.Buffer.InMessage
use fuse.Buffer.InMessage.{InMessage, bytes}
use fuse.Freelist
use fuse.Freelist.{Freelist}
use fuse.Fuseops.{rm_dir}
use fuse.Conversions.Requests.{Request, body, mkdir}
use fuse.Conversions.Responses.{errno, no_response}
use fuse.Conversions.Replies.{IsAnswered}
use fuse.Connection.Messages.{get_in_message, get_out_message, new_out_message}
use fuse.Connection.Requests.{new_requests, update}
use fuse.Connection.Ops.{read_op, Config, Session, OpState}
use fuse.Connection.Messages.Reading.{after_interrupts}
use fuse.Connection.Ops.Interrupts.{read_op_interrupt}
use fuse.Connection.Ops.Reads.{IsRequest, Gets, read_op_request}
use fuse.Connection.Ops.Replies.{Sends, SendsError, reply_lem, reply-error}

abbrev config : Config
config = record {
  page_size = 4096;
  use_vectored_read = true;
  protocol = version 7 31;
  has_error_logger = true;
}

abbrev make_tmp : Request
make_tmp = mkdir (record { mode = 1023; umask = 18 }) (116 ∷ 109 ∷ 112 ∷ [])

abbrev request_bytes : Bytes
request_bytes =
    pack ((4, 52) ∷ (4, 9) ∷ (8, 77) ∷ (8, 1) ∷ (4, 1000) ∷ (4, 1000) ∷ (4, 42) ∷ (4, 0) ∷ [])
    ++ body (version 7 31) make_tmp

-- A message that was used before, of 56 bytes.
abbrev used_message : InMessage
used_message = record {
  remaining = record { off = 0; len = 0 };
  storage = request_bytes ++ (0 ∷ 0 ∷ 0 ∷ 0 ∷ []);
  size = 0;
}

abbrev session : Session
session = record {
  pools = record {
    in_messages = record { list = used_message ∷ [] };
    out_messages = record { list = [] };
  };
  requests = new_requests;
  reads = [];
}

make_tmp-IsRequest : IsRequest config make_tmp request_bytes
unfolding pack Bytes.to_le Bytes.of_le mkdir_in_size opcode_number
make_tmp-IsRequest = record {
  whole = omega arith;
  size = refl;
  is_op = refl;
  has_body = refl;
  sent = ((omega arith, (omega arith, tt)), (omega arith, (omega arith, (omega arith, tt))));
  not_interrupt = refl;
}

read_op_request_example : Gets config 0 0 2 make_tmp request_bytes session
unfolding pack Bytes.to_le mkdir_in_size get_in_message Freelist.get
read_op_request_example =
    read_op_request config 0 0 2 make_tmp request_bytes session make_tmp-IsRequest (omega arith)
      refl

-- An op whose request, with the ID 77, is in flight.
abbrev answered : OpState
answered = record {
  in_msg = record { remaining = record { off = 52; len = 0 }; storage = request_bytes; size = 52 };
  out_msg = new_out_message;
  op = rm_dir (record {
    parent = 1;
    name = 97 ∷ [];
    op_context = record { fuse_id = 77; pid = 42; uid = 1000 };
  });
}

abbrev busy : Session
busy = record session {
  requests = record { cancel_funcs = update 77 (some 3) (λ _. none); cancelled = [] };
}

reply_lem_example : Sends config (λ i t. 0) answered (inr 16) busy
unfolding pack Bytes.to_le Bytes.of_le InMessage.header IsAnswered mkdir_in_size
reply_lem_example = reply_lem config (λ i t. 0) answered (inr 16) 3 busy refl tt tt

reply-error_example : SendsError config (λ i t. 0) answered (errno 2) (inr 16) busy
unfolding pack Bytes.to_le Bytes.of_le InMessage.header no_response mkdir_in_size
reply-error_example = reply-error config (λ i t. 0) answered (errno 2) (inr 16) 3 busy refl tt refl

-- An INTERRUPT of that request.
abbrev interrupt_bytes : Bytes
interrupt_bytes =
    pack ((4, 48) ∷ (4, 36) ∷ (8, 78) ∷ (8, 0) ∷ (4, 0) ∷ (4, 0) ∷ (4, 0) ∷ (4, 0) ∷ (8, 77) ∷ [])

read_op_interrupt_example :
    (c' : Session) × (read_op config 5 2
        (record busy { reads = after_interrupts 1 (bytes interrupt_bytes ∷ []) })
      ≡ read_op config 5 1 c')
    × (c'.requests.cancel_funcs ≡ busy.requests.cancel_funcs)
    × (c'.requests.cancelled ≡ 3 ∷ [])
    × (c'.pools ≡ (get_out_message (get_in_message 4096 busy.pools).1).1)
    × (c'.reads ≡ [])
unfolding pack Bytes.to_le Bytes.of_le mkdir_in_size get_in_message Freelist.get
read_op_interrupt_example =
    read_op_interrupt config 5 0 1 77 interrupt_bytes busy (omega arith) refl refl refl
      (omega arith) (omega arith)
