-- ===== src/Conversions/Replies.antt =====
-- conversions.go: what `kernelResponse` sends, as the bytes behind the header.
pub mod Segments
pub mod Sending
use fuse.Base.{
  ℕ,
  ◌+◌,
  ◌-◌,
  ◌<◌,
  ◌≤◌,
  ◌≡◌,
  refl,
  sym,
  ap,
  ◌∙◌,
  false,
  none,
  some,
  List,
  [],
  ◌∷◌,
  ◌++◌,
  append-nil,
  subst,
  ◌>>=◌,
  length,
  take,
  set-append_length,
  Bytes.{Bytes},
  Word.{u32},
  Outcome,
  done,
  ◌==◌,
  if◌then◌else◌,
  Bool-cases,
  ◌⊎◌,
  inl,
  inr,
  arith,
  replicate,
}
use fuse.Kernel.Protocol.{Protocol}
use fuse.Kernel.Layout.{pack}
use fuse.Kernel.Responses.{
  entry_out_size, entry_out_fields, attr_out_size, attr_out_fields, open_out_fields,
  write_out_fields, getxattr_out_fields,
}
use fuse.Buffer.OutMessage
use fuse.Buffer.OutMessage.{
  OutMessage, Segment, header_size, header_bytes, append, append_string, with_header, grow,
  shrink_to, len,
}
use fuse.Buffer.OutMessage.Shrink.{
  IsValid, AllBytes, concat, payload, append-payload, shrink_to-ShrinksTo, len-payload,
}
use fuse.Fuseops.{
  Op, stat_fs, sync_fs, look_up_inode, get_inode_attributes, set_inode_attributes, forget_inode,
  batch_forget, read_symlink, mk_dir, mk_node, create_file, create_symlink, create_link, rename,
  rm_dir, unlink, open_dir, read_dir, release_dir_handle, open_file, read_file, write_file,
  sync_file, flush_file, release_file_handle, fallocate, remove_xattr, get_xattr, list_xattr,
  set_xattr, interrupt, init, unknown,
}
use fuse.Fuseops.Types.{Buffer, in_message, nil, in_segment, ChildInodeEntry, Attributes}
use fuse.Conversions.Outgoing.{
  convert_attributes, convert_expiration_time, convert_child_inode_entry, put_struct,
}
use fuse.Conversions.Responses.{
  OpError, error_number, no_response, buffer_length, flag, segments, read_response,
  stat_fs_response, init_response, kernel_response_for_op, kernel_response, write_xattr_size,
  with_len, xattr_response,
}

-- The bytes of the structures that stand in replies.
abbrev pub entry_bytes : Protocol → (ℕ → ℕ → ℕ) → ChildInodeEntry → Bytes
entry_bytes p until e =
    take (entry_out_size p) (pack (entry_out_fields (convert_child_inode_entry until e)))

abbrev pub attribute_bytes : Protocol → (ℕ → ℕ → ℕ) → ℕ → Attributes → ℕ → Bytes
attribute_bytes p until inode a expiration = take (attr_out_size p) (
    pack (
      attr_out_fields (record {
        attr_valid = (convert_expiration_time (until 0 expiration)).0;
        attr_valid_nsec = (convert_expiration_time (until 0 expiration)).1;
        attr = convert_attributes inode a;
      })))

abbrev pub open_bytes : ℕ → ℕ → Bytes
open_bytes fh flags = take 16 (pack (open_out_fields (record { fh = fh; open_flags = flags })))

abbrev pub xattr_bytes : Buffer → ℕ → Bytes → Bytes
xattr_bytes dst n before =
    if buffer_length dst == 0
    then before ++ take 8 (pack (getxattr_out_fields (record { size = u32 n })))
    else take n before

-- The body of the reply to an op without an error, by what the message held before: the buffer that
-- was grown for the op, or nothing.
unfoldable pub response_bytes : Bytes → (ℕ → ℕ → ℕ) → Protocol → Op → Bytes → Bytes
response_bytes storage until p (look_up_inode o) before = before ++ entry_bytes p until o.entry
response_bytes storage until p (mk_dir o) before = before ++ entry_bytes p until o.entry
response_bytes storage until p (mk_node o) before = before ++ entry_bytes p until o.entry
response_bytes storage until p (create_symlink o) before = before ++ entry_bytes p until o.entry
response_bytes storage until p (create_link o) before = before ++ entry_bytes p until o.entry
response_bytes storage until p (get_inode_attributes o) before =
    before ++ attribute_bytes p until o.inode o.attributes o.attributes_expiration
response_bytes storage until p (set_inode_attributes o) before =
    before ++ attribute_bytes p until o.inode o.attributes o.attributes_expiration
response_bytes storage until p (create_file o) before =
    before ++ entry_bytes p until o.entry ++ open_bytes o.handle 0
response_bytes storage until p (open_dir o) before =
    before ++ open_bytes o.handle (flag 8 o.cache_dir + flag 2 o.keep_cache)
response_bytes storage until p (open_file o) before =
    before ++ open_bytes o.handle (flag 2 o.keep_page_cache + flag 1 o.use_direct_io)
response_bytes storage until p (read_dir o) before = take o.bytes_read before
response_bytes storage until p (read_file o) before =
    take o.bytes_read (before ++ concat (read_response storage o.dst o.payload))
response_bytes storage until p (write_file o) before =
    before ++ take 8 (pack (write_out_fields (record { size = u32 (length o.payload) })))
response_bytes storage until p (read_symlink o) before = before ++ o.target
response_bytes storage until p (stat_fs o) before = before ++ take 80 (pack (stat_fs_response o))
response_bytes storage until p (init o) before = before ++ take 64 (pack (init_response o))
response_bytes storage until p (get_xattr o) before = xattr_bytes o.dst o.bytes_read before
response_bytes storage until p (list_xattr o) before = xattr_bytes o.dst o.bytes_read before
response_bytes storage until p _ before = before

-- What a file system promises: it reports no more bytes than there are. Some ops are never answered
-- with success.
unfoldable pub IsAnswered : Bytes → Op → Bytes → Type 0
IsAnswered storage (read_dir o) before = o.bytes_read ≤ length before
IsAnswered storage (read_file o) before =
    o.bytes_read ≤ length (before ++ concat (read_response storage o.dst o.payload))
IsAnswered storage (get_xattr o) before = (buffer_length o.dst ≡ 0) ⊎ (o.bytes_read ≤ length before)
IsAnswered storage (list_xattr o) before =
    (buffer_length o.dst ≡ 0) ⊎ (o.bytes_read ≤ length before)
IsAnswered storage (unknown o) before = ⊥
IsAnswered storage (forget_inode o) before = ⊥
IsAnswered storage (batch_forget o) before = ⊥
IsAnswered storage (interrupt o) before = ⊥
IsAnswered storage _ before = Unit

abbrev pub Answers : Bytes → OutMessage → Outcome OutMessage → Type 0
Answers b m o =
    (m' : OutMessage) × (o ≡ done m') × IsValid m' × (m'.header ≡ m.header) × (payload m' ≡ b)

-- The response to an op without an error.
abbrev pub Responds : Bytes → (ℕ → ℕ → ℕ) → Protocol → ℕ → Op → OutMessage → Type 0
Responds storage until p fuse_id op m =
    (m' : OutMessage) × (kernel_response storage until p fuse_id op none m ≡ done (false, m'))
    × IsValid m'
    × (m'.header.unique ≡ fuse_id)
    × (m'.header.error ≡ m.header.error)
    × (payload m' ≡ response_bytes storage until p op (payload m))
    × (m'.header.len ≡ u32 (header_size + length (payload m')))
