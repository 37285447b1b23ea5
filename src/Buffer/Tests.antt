-- ===== src/Buffer/Tests.antt =====
-- A request of 44 bytes, and a reply of two segments.
use fuse.Base.{
  ℕ,
  ◌+◌,
  ◌≤◌,
  ◌<◌,
  ◌≡◌,
  ◌⊎◌,
  refl,
  none,
  some,
  [],
  ◌∷◌,
  ◌++◌,
  length,
  drop,
  replicate,
  Bytes.{Bytes, of_le},
  done,
  arith,
}
use fuse.Buffer.InMessage
use fuse.Buffer.InMessage.{InMessage, Slice, ReadResult, slice_bytes, field_at}
use fuse.Buffer.InMessage.Cursor.{IsValid, view, overwrite, init_accepts, get_free_lem}
use fuse.Buffer.OutMessage
use fuse.Buffer.OutMessage.{OutMessage, zero_header, Segment, header_bytes, bytes, with_header}
use fuse.Buffer.OutMessage.Shrink.{ShrinksTo, shrink_to-ShrinksTo}

abbrev blank : InMessage
blank = record { remaining = record { off = 0; len = 0 }; storage = replicate 60 0; size = 0 }

-- A header of 40 bytes for 44 bytes in all, and four bytes behind it.
abbrev request : Bytes
request = 44 ∷ 0 ∷ 0 ∷ 0 ∷ (replicate 36 9 ++ (1 ∷ 2 ∷ 3 ∷ 4 ∷ []))

request_size : field_at 0 4 request ≡ length request
unfolding of_le
request_size = refl

init_accepts_example :
    let (m', err) = InMessage.init {E = ℕ} blank (ReadResult.bytes request) in
    (err ≡ none)
    × IsValid m'
    × (view m' ≡ drop InMessage.header_size request)
    × ((InMessage.header m').opcode ≡ field_at 4 4 request)
    × ((InMessage.header m').unique ≡ field_at 8 8 request)
    × ((InMessage.header m').nodeid ≡ field_at 16 8 request)
init_accepts_example = init_accepts {E = ℕ} blank request (omega arith) (omega arith) request_size

abbrev loaded : InMessage
loaded = record {
  remaining = record { off = 40; len = 4 };
  storage = request ++ replicate 16 0;
  size = 44;
}

loaded-IsValid : IsValid loaded
loaded-IsValid = omega arith

get_free_example :
    ((InMessage.get_free 16 loaded ≡ none)
      × (◌≡◌ {A = ℕ} 16 0 ⊎ (length loaded.storage < loaded.size + 16)))
    ⊎ ((s : Slice) × (InMessage.get_free 16 loaded ≡ some s)
        × (s.len ≡ 16)
        × (s.off + 16 ≤ length loaded.storage)
        × (let m' = record loaded { storage = overwrite loaded.storage s (replicate 16 7) } in
            IsValid m' × (view m' ≡ view loaded) × (InMessage.header m' ≡ InMessage.header loaded)))
get_free_example = get_free_lem 16 (replicate 16 7) loaded loaded-IsValid (omega arith) refl

abbrev reply : OutMessage
reply = record {
  header = zero_header;
  sglist = some (header_bytes ∷ bytes (1 ∷ 2 ∷ 3 ∷ []) ∷ bytes (4 ∷ 5 ∷ []) ∷ []);
}

shrink_reply :
    OutMessage.shrink_to 20 reply
    ≡ done (record reply {
      sglist = some (header_bytes ∷ bytes (1 ∷ 2 ∷ 3 ∷ []) ∷ bytes (4 ∷ []) ∷ []);
    })
unfolding OutMessage.shrink_to OutMessage.skip OutMessage.cut_at OutMessage.segments_length
shrink_reply = refl

reply-len : OutMessage.len reply ≡ 21
unfolding OutMessage.len OutMessage.segments_length
reply-len = refl

shrink_to-ShrinksTo_example :
    (m' : OutMessage) × (OutMessage.shrink_to 20 reply ≡ done m') × ShrinksTo 20 reply m'
shrink_to-ShrinksTo_example =
    shrink_to-ShrinksTo 20 reply tt (omega arith) (omega (arith, reply-len))
