-- ===== src/Conversions/Responses.antt =====
-- conversions.go: `kernelResponse`. A read's destination lies in the incoming message, whose storage
-- is an argument. The counts of bytes that an op reports are not negative.
use fuse.Base.{
  ℕ,
  ◌+◌,
  Bool,
  true,
  false,
  Option,
  none,
  some,
  List,
  [],
  ◌∷◌,
  length,
  Bytes.{Bytes},
  Outcome,
  done,
  panic,
  ◌>>=◌,
  Word.{u32},
  ◌==◌,
  if◌then◌else◌,
}
use fuse.Kernel.Protocol.{Protocol}
use fuse.Kernel.Layout.{pack}
use fuse.Kernel.Responses.{
  entry_out_size, entry_out_fields, attr_out_size, attr_out_fields, open_out_fields,
  write_out_fields, kstatfs_fields, getxattr_out_fields, init_out_fields,
}
use fuse.Buffer.InMessage.{slice_bytes}
use fuse.Buffer.OutMessage
use fuse.Buffer.OutMessage.{OutMessage, Segment, header_size}
use fuse.Fuseops.{
  Op, stat_fs, sync_fs, look_up_inode, get_inode_attributes, set_inode_attributes, forget_inode,
  batch_forget, read_symlink, mk_dir, mk_node, create_file, create_symlink, create_link, rename,
  rm_dir, unlink, open_dir, read_dir, release_dir_handle, open_file, read_file, write_file,
  sync_file, flush_file, release_file_handle, fallocate, remove_xattr, get_xattr, list_xattr,
  set_xattr, interrupt, init, unknown,
}
use fuse.Fuseops.Types.{Buffer, nil, in_message, in_segment, ChildInodeEntry, Attributes}
use fuse.Fuseops.Inodes.{StatFsOp}
use fuse.Fuseops.Internal.{InitOp}
use fuse.Conversions.Outgoing.{
  convert_attributes, convert_expiration_time, convert_child_inode_entry, flags_number, put_struct,
}

-- A `syscall.Errno`, by its number, or another error.
pub data OpError : Type 0 where
  errno : ℕ → OpError
  foreign : OpError

abbrev pub eio : ℕ
eio = 5

abbrev pub error_number : OpError → ℕ
error_number (errno n) = n
error_number foreign = eio

-- The ops to which the kernel expects no response.
unfoldable pub no_response : Op → Bool
no_response (forget_inode o) = true
no_response (batch_forget o) = true
no_response (interrupt o) = true
no_response _ = false

abbrev pub buffer_length : Buffer → ℕ
buffer_length nil = 0
buffer_length (in_message s) = s.len
buffer_length (in_segment i n) = n

abbrev pub put_entry : Protocol → (ℕ → ℕ → ℕ) → ChildInodeEntry → OutMessage → Outcome OutMessage
put_entry p until e =
    put_struct (entry_out_size p) (pack (entry_out_fields (convert_child_inode_entry until e)))

abbrev pub put_attributes :
    Protocol → (ℕ → ℕ → ℕ) → ℕ → Attributes → ℕ → OutMessage → Outcome OutMessage
put_attributes p until inode a expiration = put_struct (attr_out_size p) (
    pack (
      attr_out_fields (record {
        attr_valid = (convert_expiration_time (until 0 expiration)).0;
        attr_valid_nsec = (convert_expiration_time (until 0 expiration)).1;
        attr = convert_attributes inode a;
      })))

-- `OpenDirectIO`, `OpenKeepCache` and `OpenCacheDir` are the bits 0, 1 and 3.
abbrev pub flag : ℕ → Bool → ℕ
flag bit given = if given then bit else 0

abbrev pub put_open : ℕ → ℕ → OutMessage → Outcome OutMessage
put_open fh flags = put_struct 16 (pack (open_out_fields (record { fh = fh; open_flags = flags })))

unfoldable pub write_xattr_size : ℕ → OutMessage → Outcome OutMessage
write_xattr_size size = put_struct 8 (pack (getxattr_out_fields (record { size = size })))

abbrev pub xattr_response : Buffer → ℕ → OutMessage → Outcome OutMessage
xattr_response dst n m =
    if buffer_length dst == 0
    then write_xattr_size (u32 n) m
    else OutMessage.shrink_to (header_size + n) m

-- The slices of a vectored read are appended as they are.
abbrev pub segments : List Bytes → List Segment
segments [] = []
segments (b ∷ l) = OutMessage.bytes b ∷ segments l

-- A destination that is not `nil` is the slice of the storage.
unfoldable pub read_response : Bytes → Buffer → List Bytes → List Segment
read_response storage (in_message s) payload = OutMessage.bytes (slice_bytes storage s) ∷ []
read_response storage _ payload = segments payload

unfoldable pub stat_fs_response : StatFsOp → List (ℕ × ℕ)
stat_fs_response o = kstatfs_fields (record {
  blocks = o.blocks;
  bfree = o.blocks_free;
  bavail = o.blocks_available;
  files = o.inodes;
  ffree = o.inodes_free;
  bsize = o.io_size;
  namelen = 255;
  frsize = o.block_size;
})

unfoldable pub init_response : InitOp → List (ℕ × ℕ)
unfolding flags_number
init_response o = init_out_fields (record {
  major = o.library.major;
  minor = o.library.minor;
  max_readahead = o.max_readahead;
  flags = flags_number 32 o.flags;
  max_background = 12;
  congestion_threshold = 9;
  max_write = o.max_write;
  time_gran = 1;
  max_pages = o.max_pages;
  map_alignment = 0;
})

unfoldable pub kernel_response_for_op :
    Bytes → (ℕ → ℕ → ℕ) → Protocol → Op → OutMessage → Outcome OutMessage
unfolding read_response stat_fs_response init_response write_xattr_size
kernel_response_for_op storage until p (look_up_inode o) m = put_entry p until o.entry m
kernel_response_for_op storage until p (get_inode_attributes o) m =
    put_attributes p until o.inode o.attributes o.attributes_expiration m
kernel_response_for_op storage until p (set_inode_attributes o) m =
    put_attributes p until o.inode o.attributes o.attributes_expiration m
kernel_response_for_op storage until p (mk_dir o) m = put_entry p until o.entry m
kernel_response_for_op storage until p (mk_node o) m = put_entry p until o.entry m
kernel_response_for_op storage until p (create_file o) m = do
  m' ← put_entry p until o.entry m
  put_open o.handle 0 m'
kernel_response_for_op storage until p (create_symlink o) m = put_entry p until o.entry m
kernel_response_for_op storage until p (create_link o) m = put_entry p until o.entry m
kernel_response_for_op storage until p (open_dir o) m =
    put_open o.handle (flag 8 o.cache_dir + flag 2 o.keep_cache) m
kernel_response_for_op storage until p (read_dir o) m =
    OutMessage.shrink_to (header_size + o.bytes_read) m
kernel_response_for_op storage until p (open_file o) m =
    put_open o.handle (flag 2 o.keep_page_cache + flag 1 o.use_direct_io) m
kernel_response_for_op storage until p (read_file o) m =
    OutMessage.shrink_to (header_size + o.bytes_read)
      (OutMessage.append m (read_response storage o.dst o.payload))
kernel_response_for_op storage until p (write_file o) m =
    put_struct 8 (pack (write_out_fields (record { size = u32 (length o.payload) }))) m
kernel_response_for_op storage until p (read_symlink o) m =
    done (OutMessage.append_string m o.target)
kernel_response_for_op storage until p (stat_fs o) m = put_struct 80 (pack (stat_fs_response o)) m
kernel_response_for_op storage until p (get_xattr o) m = xattr_response o.dst o.bytes_read m
kernel_response_for_op storage until p (list_xattr o) m = xattr_response o.dst o.bytes_read m
kernel_response_for_op storage until p (init o) m = put_struct 64 (pack (init_response o)) m
kernel_response_for_op storage until p (rename o) m = done m
kernel_response_for_op storage until p (rm_dir o) m = done m
kernel_response_for_op storage until p (unlink o) m = done m
kernel_response_for_op storage until p (release_dir_handle o) m = done m
kernel_response_for_op storage until p (sync_file o) m = done m
kernel_response_for_op storage until p (flush_file o) m = done m
kernel_response_for_op storage until p (release_file_handle o) m = done m
kernel_response_for_op storage until p (remove_xattr o) m = done m
kernel_response_for_op storage until p (set_xattr o) m = done m
kernel_response_for_op storage until p (fallocate o) m = done m
kernel_response_for_op storage until p (sync_fs o) m = done m
kernel_response_for_op storage until p (forget_inode o) m = panic
kernel_response_for_op storage until p (batch_forget o) m = panic
kernel_response_for_op storage until p (interrupt o) m = panic
kernel_response_for_op storage until p (unknown o) m = panic

-- `-int32(errno)` is kept as the errno.
abbrev pub respond_error : ℕ → OutMessage → Outcome OutMessage
respond_error n m =
    OutMessage.shrink_to header_size (record m { header = record (m.header) { error = n } })

abbrev pub respond :
    Bytes → (ℕ → ℕ → ℕ) → Protocol → Op → Option OpError → OutMessage → Outcome OutMessage
respond storage until p op none m = kernel_response_for_op storage until p op m
respond storage until p op (some e) m = respond_error (error_number e) m

abbrev pub with_len : OutMessage → OutMessage
with_len m = record m { header = record (m.header) { len = u32 (OutMessage.len m) } }

-- The Boolean says that no response is sent.
unfoldable pub kernel_response :
    Bytes
    → (ℕ → ℕ → ℕ)
    → Protocol
    → ℕ
    → Op
    → Option OpError
    → OutMessage
    → Outcome (Bool × OutMessage)
unfolding no_response kernel_response_for_op
kernel_response storage until p fuse_id op err m =
    let h = record m { header = record (m.header) { unique = fuse_id } } in
    if no_response op
    then done (true, h)
    else respond storage until p op err h >>= λ m'. done (false, with_len m')
