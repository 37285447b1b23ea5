-- ===== src/Connection/Tests.antt =====
-- Requests with the IDs 3 and 4, and the messages of a connection with one message free.
use fuse.Base.{
  ℕ,
  ◌≤◌,
  ◌≡◌,
  ◌⊎◌,
  inl,
  inr,
  refl,
  true,
  false,
  some,
  List,
  [],
  ◌∷◌,
  ◌++◌,
  length,
  drop,
  replicate,
  All,
  Bytes.{Bytes, of_le},
  done,
  arith,
}
use fuse.Freelist
use fuse.Freelist.{Freelist}
use fuse.Kernel.Protocol.{
  version, lt, ge, has_getattr_flags, has_open_non_seekable, has_umask, has_invalidate,
}
use fuse.Buffer.InMessage.{InMessage, bytes, failed, header_size, field_at}
use fuse.Buffer.InMessage.Cursor.{IsValid, view}
use fuse.Connection.Requests.{Requests, new_requests}
use fuse.Connection.Requests.Trace.{
  Event, read, interrupt, reply, run, legal, in_flight, Agrees, Ends, run_lem,
}
use fuse.Connection.Requests.Contexts.{IsIn, issued, Tracked, contexts-Tracked, contexts_cancelled}
use fuse.Connection.Init.{MountConfig, min_version, max_version, negotiate}
use fuse.Connection.Init.Negotiation.{negotiate_lem}
use fuse.Connection.Messages.{
  Pools, hung_up, end_of_file, new_out_message, get_in_message, get_out_message, read_message,
}
use fuse.Connection.Messages.Reading.{
  after_interrupts, get_out_message_lem, read_message_lem, read_message_hung_up,
}

-- Two requests, of which the first is interrupted; both are replied to. A forget comes between.
abbrev events : List Event
events =
    read 1 3 10
    ∷ read 1 4 11
    ∷ interrupt 3
    ∷ read 2 4 12
    ∷ reply 2 4
    ∷ reply 1 3
    ∷ interrupt 3
    ∷ reply 1 4
    ∷ []

events-legal : legal events (λ _. false) ≡ true
unfolding legal
events-legal = refl

events_idle : (j : ℕ) → in_flight events (λ _. false) j ≡ false
unfolding in_flight
events_idle j = ground arith

run_lem_example :
    Ends (legal events (λ _. false)) (in_flight events (λ _. false)) (run events new_requests)
run_lem_example = run_lem events new_requests (λ _. false) (λ j. refl)

contexts-Tracked_example :
    (c : Requests) × (run events new_requests ≡ done c)
    × Agrees c (in_flight events (λ _. false))
    × All (λ k. Tracked k c) (issued events)
contexts-Tracked_example = contexts-Tracked events events-legal

contexts_cancelled_example :
    (c : Requests) × (run events new_requests ≡ done c)
    × All (λ k. IsIn k c.cancelled) (issued events)
contexts_cancelled_example = contexts_cancelled events events-legal events_idle

-- A kernel of version 7.31.
new_enough : lt (version 7 31) min_version ≡ false
unfolding lt
new_enough = refl

negotiate_lem_example :
    let p = negotiate (version 7 31) in
    ((p ≡ version 7 31) ⊎ (p ≡ max_version))
    × (ge (version 7 31) p ≡ true)
    × (ge max_version p ≡ true)
    × (ge p min_version ≡ true)
    × (has_getattr_flags p ≡ true)
    × (has_open_non_seekable p ≡ true)
    × (has_umask p ≡ true)
    × (has_invalidate p ≡ true)
negotiate_lem_example = negotiate_lem (version 7 31) new_enough

abbrev config : MountConfig
config = record {
  enable_async_reads = true;
  disable_writeback_caching = false;
  enable_symlink_caching = true;
  enable_no_open_support = true;
  enable_no_opendir_support = false;
  enable_parallel_dir_ops = true;
  enable_atomic_trunc = false;
}

abbrev request : Bytes
request = 42 ∷ 0 ∷ 0 ∷ 0 ∷ replicate 36 1 ++ (5 ∷ 6 ∷ [])

request-length : field_at 0 4 request ≡ length request
unfolding of_le
request-length = refl

abbrev pools : Pools
pools = record {
  in_messages = record {
    list =
        record { remaining = record { off = 0; len = 0 }; storage = replicate 64 0; size = 0 } ∷ [];
  };
  out_messages = record { list = new_out_message ∷ [] };
}

room : length request ≤ length (get_in_message 4096 pools).0.storage
unfolding get_in_message Freelist.get
room = omega arith

get_out_message_lem_example : (get_out_message pools).0 ≡ new_out_message
get_out_message_lem_example = get_out_message_lem pools

read_message_lem_example :
    (m' : InMessage) × (read_message 4096 (after_interrupts 2 (bytes request ∷ [])) pools
      ≡ some (inl m', (get_in_message 4096 pools).1, []))
    × IsValid m'
    × (view m' ≡ drop header_size request)
read_message_lem_example =
    read_message_lem 4096 2 request [] pools room (omega arith) request-length

read_message_hung_up_example :
    (c' : Pools) × (read_message 4096 (after_interrupts 2 (failed hung_up ∷ [])) pools
      ≡ some (inr end_of_file, c', []))
    × (get_in_message 4096 c' ≡ get_in_message 4096 pools)
read_message_hung_up_example = read_message_hung_up 4096 2 [] pools
