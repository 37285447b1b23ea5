-- ===== src/Conversions/Incoming/Inodes.antt =====
-- conversions.go: `convertInMessage` for requests on inodes, and for the library itself.
use fuse.Base.{ℕ, zero, suc, ◌^◌, Option, none, some, List, [], ◌∷◌, if◌then◌else◌}
use fuse.Kernel.Protocol.{version}
use fuse.Kernel.Layout.{size_of}
use fuse.Kernel.Requests.Names.{
  forget_in, decode_forget_in, batch_forget_count_in, decode_batch_forget_count_in,
  batch_forget_entry_in, decode_batch_forget_entry_in, interrupt_in, decode_interrupt_in, init_in,
  decode_init_in,
}
use fuse.Kernel.Requests.Files.{SetattrIn, setattr_in, decode_setattr_in}
use fuse.Buffer.InMessage.{InHeader}
use fuse.Fuseops.{
  Op, stat_fs, get_inode_attributes, set_inode_attributes, forget_inode, batch_forget, read_symlink,
  interrupt, init, unknown,
}
use fuse.Fuseops.Types.{zero_attributes}
use fuse.Fuseops.Inodes.{BatchForgetEntry}
use fuse.Conversions.{convert_file_mode, has_bit}
use fuse.Conversions.Exchange.{M, ◌>>=◌, pure, take_struct, op_context}

unfoldable pub convert_getattr : InHeader → M Op
convert_getattr h = pure (
    get_inode_attributes (record {
      inode = h.nodeid;
      attributes = zero_attributes;
      attributes_expiration = 0;
      op_context = op_context h;
    }))

-- A field that is given if its bit of `Valid` is set.
abbrev pub given : {A : Type 0} → ℕ → ℕ → A → Option A
given bit valid a = if has_bit bit valid then some a else none

-- The times are the arguments of `time.Unix`.
unfoldable pub convert_setattr : InHeader → M Op
convert_setattr h = do
  b ← take_struct (size_of setattr_in)
  let s : SetattrIn = decode_setattr_in b
  pure (
      set_inode_attributes (record {
        inode = h.nodeid;
        handle = given (2 ^ 6) s.valid s.fh;
        uid = given (2 ^ 1) s.valid s.uid;
        gid = given (2 ^ 2) s.valid s.gid;
        size = given (2 ^ 3) s.valid s.size;
        mode = given (2 ^ 0) s.valid (convert_file_mode s.mode);
        atime = given (2 ^ 4) s.valid (s.atime, s.atime_nsec);
        mtime = given (2 ^ 5) s.valid (s.mtime, s.mtime_nsec);
        attributes = zero_attributes;
        attributes_expiration = 0;
        op_context = op_context h;
      }))

unfoldable pub convert_forget : InHeader → M Op
convert_forget h = do
  b ← take_struct (size_of forget_in)
  pure (
      forget_inode
        (record { inode = h.nodeid; n = (decode_forget_in b).nlookup; op_context = op_context h }))

-- The loop over the entries of a batch.
unfoldable pub take_entries : ℕ → M (List BatchForgetEntry)
take_entries zero = pure []
take_entries (suc n) = do
  b ← take_struct (size_of batch_forget_entry_in)
  let e = decode_batch_forget_entry_in b
  rest ← take_entries n
  pure (record { inode = e.inode; n = e.nlookup } ∷ rest)

unfoldable pub convert_batch_forget : InHeader → M Op
convert_batch_forget h = do
  b ← take_struct (size_of batch_forget_count_in)
  entries ← take_entries (decode_batch_forget_count_in b).count
  pure (batch_forget (record { entries = entries; op_context = op_context h }))

unfoldable pub convert_readlink : InHeader → M Op
convert_readlink h =
    pure (read_symlink (record { inode = h.nodeid; target = []; op_context = op_context h }))

unfoldable pub convert_statfs : M Op
convert_statfs = pure (
    stat_fs (record {
      block_size = 0;
      blocks = 0;
      blocks_free = 0;
      blocks_available = 0;
      io_size = 0;
      inodes = 0;
      inodes_free = 0;
    }))

unfoldable pub convert_interrupt : M Op
convert_interrupt = do
  b ← take_struct (size_of interrupt_in)
  pure (interrupt (record { fuse_id = (decode_interrupt_in b).unique }))

unfoldable pub convert_init : M Op
convert_init = do
  b ← take_struct (size_of init_in)
  let i = decode_init_in b
  pure (
      init (record {
        kernel = version i.major i.minor;
        flags = λ j. has_bit (2 ^ j) i.flags;
        library = version 0 0;
        max_readahead = i.max_readahead;
        max_background = 0;
        max_write = 0;
        max_pages = 0;
      }))

unfoldable pub convert_unknown : InHeader → M Op
convert_unknown h = pure (unknown (record { op_code = h.opcode; inode = h.nodeid }))
