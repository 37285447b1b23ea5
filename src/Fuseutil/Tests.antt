-- ===== src/Fuseutil/Tests.antt =====
-- A file system whose state is the number of lookups that were forgotten, and a refused request.
use fuse.Base.{
  ℕ,
  true,
  false,
  ◌+◌,
  ◌≡◌,
  refl,
  none,
  some,
  [],
  ◌∷◌,
  ◌++◌,
  replicate,
  inr,
  done,
  Bytes.{Bytes},
}
use fuse.Base.Bytes
use fuse.Kernel.Protocol.{version}
use fuse.Buffer.InMessage
use fuse.Fuseops
use fuse.Fuseops.Types.{OpContext}
use fuse.Fuseops.Inodes.{BatchForgetEntry}
use fuse.Conversions.Responses.{no_response}
use fuse.Connection.Messages.{new_out_message}
use fuse.Connection.Requests.{update}
use fuse.Connection.Ops.{Config, OpState, Session}
use fuse.Fuseutil.{FileSystem, not_implemented, handle_op}
use fuse.Fuseutil.Forgetting.{forget_all, handle_op-batch_forget}
use fuse.Fuseutil.Refusing.{Refuses, handle_and_reply-not_implemented}

unfoldable counting : FileSystem ℕ
unfolding not_implemented
counting = record (not_implemented ℕ) { forget_inode = λ o s. done (none, o, s + o.n) }

abbrev context : OpContext
context = record { fuse_id = 5; pid = 42; uid = 1000 }

abbrev first : BatchForgetEntry
first = record { inode = 2; n = 1 }

abbrev second : BatchForgetEntry
second = record { inode = 3; n = 4 }

handle_op-batch_forget_example :
    let batch =
      Fuseops.batch_forget (record { entries = first ∷ second ∷ []; op_context = context }) in
    handle_op counting batch 0
    ≡ done (none, batch, forget_all counting (λ id n s. s + n) (first ∷ second ∷ []) 0)
unfolding counting not_implemented
handle_op-batch_forget_example =
    handle_op-batch_forget counting (λ id n s. s + n) context first (second ∷ []) 0 (λ o s. refl)
      (λ o s. refl)

abbrev config : Config
config = record {
  page_size = 4096;
  use_vectored_read = true;
  protocol = version 7 31;
  has_error_logger = false;
}

-- A request to remove a directory, with the ID 77.
abbrev state : OpState
state = record {
  in_msg = record {
    remaining = record { off = 40; len = 0 };
    storage = replicate 8 0 ++ (77 ∷ replicate 31 0);
    size = 40;
  };
  out_msg = new_out_message;
  op = Fuseops.rm_dir (record { parent = 1; name = 97 ∷ []; op_context = context });
}

abbrev session : Session
session = record {
  pools = record { in_messages = record { list = [] }; out_messages = record { list = [] } };
  requests = record { cancel_funcs = update 77 (some 3) (λ _. none); cancelled = [] };
  reads = [];
}

handle_and_reply-not_implemented_example : Refuses ℕ config (λ i t. 0) state (inr 16) session 9
unfolding InMessage.header Bytes.of_le no_response
handle_and_reply-not_implemented_example =
    handle_and_reply-not_implemented ℕ config (λ i t. 0) state (inr 16) 3 session 9 refl tt refl
