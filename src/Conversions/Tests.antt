-- ===== src/Conversions/Tests.antt =====
-- A directory with the sticky bit and all permissions, as /tmp has; requests and replies for the
-- directory and its files.
use fuse.Base.{
  ℕ,
  ◌≡◌,
  ◌≢◌,
  inl,
  inr,
  refl,
  arith,
  ◌++◌,
  length,
  [],
  ◌∷◌,
  none,
  some,
  Bytes.{Bytes},
  true,
  take,
  ◌⊎◌,
  ◌<◌,
  ◌+◌,
  ◌*◌,
  ◌^◌,
  ◌≤◌,
  Word.{two63},
}
use fuse.Base.Bytes
use fuse.Kernel.Protocol.{Protocol, version}
use fuse.Kernel.Layout.{pack}
use fuse.Kernel.Requests.{opcode_number, read_in_size, mkdir_in_size}
use fuse.Kernel.Requests.Files.{ReadIn}
use fuse.Kernel.Requests.Encode.{read_in_fields}
use fuse.Buffer.InMessage
use fuse.Buffer.InMessage.{InMessage}
use fuse.Buffer.OutMessage
use fuse.Buffer.OutMessage.{OutMessage, zero_header, header_bytes, header_size, len}
use fuse.Fuseops.{Op, read_dir}
use fuse.Fuseops.Types.{in_segment, Attributes, zero_attributes}
use fuse.Conversions.{convert_file_mode, convert_go_mode}
use fuse.Conversions.Modes.{unix_mode, convert_go_mode-convert_file_mode}
use fuse.Conversions.Exchange.{Exchange, panicked}
use fuse.Conversions.Incoming.{convert_in_message}
use fuse.Conversions.Incoming.Names.{convert_symlink}
use fuse.Conversions.Incoming.Files.{convert_readdir}
use fuse.Conversions.Reading.{Holds}
use fuse.Conversions.Gives.{GivesWith}
use fuse.Conversions.Requests.Ops.{op, room_of}
use fuse.Conversions.Requests.{Request, body, c_string, mkdir}
use fuse.Conversions.Requests.Convert.{convert_in_message_lem}
use fuse.Conversions.Requests.Files.{GivesBuffer, convert_readdir_lem}
use fuse.Conversions.Panics.{convert_in_message_safe, convert_symlink_panics}
use fuse.Conversions.Outgoing.{convert_time, convert_expiration_time, convert_attributes, nano}
use fuse.Conversions.Times.{convert_time_lem, convert_expiration_time_lem, blocks_lem}
use fuse.Conversions.Replies.{IsAnswered, Responds}
use fuse.Conversions.Replies.Sending.{kernel_response_lem}

convert_go_mode-convert_file_mode_example :
    convert_go_mode (convert_file_mode (unix_mode 4 0 0 1 511)) ≡ unix_mode 4 0 0 1 511
convert_go_mode-convert_file_mode_example =
    convert_go_mode-convert_file_mode 0 0 1 511 (omega arith) (omega arith) (omega arith)
      (omega arith) 4 (inr (inr (inl refl)))

abbrev linux : Protocol
linux = version 7 31

-- A message with an opcode and what follows the header, for inode 1.
abbrev message : ℕ → Bytes → Bytes
message code b =
    pack (
      (4, length b + 40)
      ∷ (4, code)
      ∷ (8, 77)
      ∷ (8, 1)
      ∷ (4, 1000)
      ∷ (4, 1000)
      ∷ (4, 42)
      ∷ (4, 0)
      ∷ [])
    ++ b

abbrev new_reply : OutMessage
new_reply = record { header = zero_header; sglist = none }

abbrev exchange : ℕ → Bytes → Exchange
exchange code b = record {
  incoming = record {
    remaining = record { off = 40; len = length b };
    storage = message code b;
    size = length b + 40;
  };
  outgoing = new_reply;
}

-- "tmp" with mode 01777 and the umask 022.
abbrev make_tmp : Request
make_tmp = mkdir (record { mode = 1023; umask = 18 }) (116 ∷ 109 ∷ 112 ∷ [])

abbrev tmp_exchange : Exchange
tmp_exchange = exchange 9 (body linux make_tmp)

tmp_exchange-Holds : Holds (body linux make_tmp) tmp_exchange
unfolding pack mkdir_in_size Bytes.to_le
tmp_exchange-Holds = record {
  valid = record { message_fits = omega arith; remaining_fits = omega arith };
  left = refl;
}

convert_in_message_lem_example :
    GivesWith
      (convert_in_message true linux)
      (op true (InMessage.header tmp_exchange.incoming) (room_of tmp_exchange) make_tmp)
      []
      new_reply
      tmp_exchange
unfolding InMessage.header opcode_number Bytes.of_le pack Bytes.to_le
convert_in_message_lem_example =
    convert_in_message_lem true linux tmp_exchange make_tmp
      ((omega arith, (omega arith, tt)), (omega arith, (omega arith, (omega arith, tt))))
      tmp_exchange-Holds refl

abbrev listing : ReadIn
listing = record { fh = 5; offset = 0; size = 4; read_flags = 0; lock_owner = 0; flags = 0 }

abbrev listing_exchange : Exchange
listing_exchange = exchange 28 (take (read_in_size linux) (pack (read_in_fields listing)))

convert_readdir_lem_example :
    ((listing.size ≡ 0)
      × (convert_readdir linux (InMessage.header listing_exchange.incoming) listing_exchange
          ≡ panicked))
    ⊎ ((0 < listing.size)
        × GivesBuffer linux (InMessage.header listing_exchange.incoming) listing_exchange listing)
unfolding pack Bytes.to_le read_in_size
convert_readdir_lem_example =
    convert_readdir_lem linux (InMessage.header listing_exchange.incoming) listing_exchange listing
      (
        omega arith,
        (
          omega arith,
          (omega arith, (omega arith, (omega arith, (omega arith, (omega arith, tt))))),
        ),
      )
      (record {
        valid = record { message_fits = omega arith; remaining_fits = omega arith };
        left = refl;
      })

convert_in_message_safe_example : convert_in_message true linux tmp_exchange ≢ panicked
unfolding InMessage.header opcode_number Bytes.of_le pack Bytes.to_le
convert_in_message_safe_example =
    convert_in_message_safe true linux tmp_exchange (omega arith) (omega arith) (omega arith)

-- A symbolic link "ab" without a target.
abbrev no_target : Exchange
no_target = exchange 6 (c_string (97 ∷ 98 ∷ []))

convert_symlink_panics_example :
    convert_symlink (InMessage.header no_target.incoming) no_target ≡ panicked
unfolding pack Bytes.to_le
convert_symlink_panics_example =
    convert_symlink_panics (InMessage.header no_target.incoming) no_target (97 ∷ 98 ∷ [])
      (omega arith, (omega arith, tt))
      (record {
        valid = record { message_fits = omega arith; remaining_fits = omega arith };
        left = refl;
      })

convert_time_lem_example :
    let (secs, nsec) = convert_time 1500000000123456789 in
    (secs * nano + nsec ≡ 1500000000123456789) × (nsec < nano)
convert_time_lem_example = convert_time_lem 1500000000123456789 (omega arith)

convert_expiration_time_lem_example :
    let (secs, nsecs) = convert_expiration_time 1500000000 in
    (nsecs < nano)
    × (secs < 2 ^ 34)
    × (((two63 ≤ 1500000000) × (secs * nano + nsecs ≡ 0))
        ⊎ ((1500000000 < two63) × (secs * nano + nsecs ≡ 1500000000)))
convert_expiration_time_lem_example = convert_expiration_time_lem 1500000000 (omega arith)

abbrev six_hundred : Attributes
six_hundred = record zero_attributes { size = 600 }

blocks_lem_example :
    let n = (convert_attributes 1 six_hundred).blocks in (600 ≤ n * 512) × (n * 512 < 600 + 512)
blocks_lem_example = blocks_lem 1 six_hundred (omega arith)

-- The reply to a directory read of three bytes of the four.
abbrev listed : Op
listed = read_dir (record {
  inode = 1;
  handle = 5;
  offset = 0;
  dst = in_segment 1 4;
  bytes_read = 3;
  op_context = record { fuse_id = 77; pid = 0; uid = 0 };
})

abbrev grown_reply : OutMessage
grown_reply = record {
  header = zero_header;
  sglist = some (header_bytes ∷ OutMessage.bytes (1 ∷ 2 ∷ 3 ∷ 4 ∷ []) ∷ []);
}

kernel_response_lem_example : Responds [] (λ i t. 0) linux 77 listed grown_reply
unfolding IsAnswered
kernel_response_lem_example =
    kernel_response_lem [] (λ i t. 0) linux 77 listed grown_reply tt (omega arith)
