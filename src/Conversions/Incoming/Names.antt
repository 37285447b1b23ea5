-- ===== src/Conversions/Incoming/Names.antt =====
-- conversions.go: `convertInMessage` for requests with names.
use fuse.Base.{
  ℕ,
  zero,
  suc,
  ◌+◌,
  ◌-◌,
  Bool,
  true,
  false,
  ◌&&◌,
  not,
  [],
  ◌∷◌,
  length,
  take,
  drop,
  Bytes.{Bytes},
  ltb,
  ◌==◌,
  if◌then◌else◌,
}
use fuse.Kernel.Protocol.{Protocol}
use fuse.Kernel.Layout.{size_of}
use fuse.Kernel.Requests.{mkdir_in_size, mknod_in_size, create_in_size}
use fuse.Kernel.Requests.Names.{
  decode_mkdir_in, decode_mknod_in, decode_create_in, decode_rename_in, decode_link_in, rename_in,
  link_in,
}
use fuse.Kernel.Requests.Files.{getxattr_in, setxattr_in, decode_getxattr_in, decode_setxattr_in}
use fuse.Buffer.InMessage.{InHeader}
use fuse.Fuseops.{
  Op, look_up_inode, mk_dir, mk_node, create_file, create_symlink, create_link, rename, rm_dir,
  unlink, remove_xattr, get_xattr, set_xattr,
}
use fuse.Fuseops.Types.{zero_entry, nil, Buffer}
use fuse.Conversions.{convert_file_mode, with_bit, mode_dir}
use fuse.Conversions.Exchange.{
  M, ◌>>=◌, ◌>>◌, pure, reject_if, or_reject, or_panic, take_struct, take_rest, whole_name,
  index_nul, ends_nul, name_before_nul, slice, grow_buffer, op_context,
}

unfoldable pub convert_lookup : InHeader → M Op
convert_lookup h = do
  name ← whole_name (← take_rest)
  pure (
      look_up_inode
        (record { parent = h.nodeid; name = name; entry = zero_entry; op_context = op_context h }))

unfoldable pub convert_unlink : InHeader → M Op
convert_unlink h = do
  name ← whole_name (← take_rest)
  pure (unlink (record { parent = h.nodeid; name = name; op_context = op_context h }))

unfoldable pub convert_rmdir : InHeader → M Op
convert_rmdir h = do
  name ← whole_name (← take_rest)
  pure (rm_dir (record { parent = h.nodeid; name = name; op_context = op_context h }))

unfoldable pub convert_removexattr : InHeader → M Op
convert_removexattr h = do
  name ← whole_name (← take_rest)
  pure (remove_xattr (record { inode = h.nodeid; name = name; op_context = op_context h }))

unfoldable pub convert_mkdir : Protocol → InHeader → M Op
convert_mkdir p h = do
  b ← take_struct (mkdir_in_size p)
  name ← name_before_nul (← take_rest)
  pure (
      mk_dir (record {
        parent = h.nodeid;
        name = name;
        mode = with_bit mode_dir (convert_file_mode (decode_mkdir_in b).mode);
        entry = zero_entry;
        op_context = op_context h;
      }))

unfoldable pub convert_mknod : Protocol → InHeader → M Op
convert_mknod p h = do
  b ← take_struct (mknod_in_size p)
  name ← name_before_nul (← take_rest)
  pure (
      mk_node (record {
        parent = h.nodeid;
        name = name;
        mode = convert_file_mode (decode_mknod_in b).mode;
        rdev = (decode_mknod_in b).rdev;
        entry = zero_entry;
        op_context = op_context h;
      }))

unfoldable pub convert_create : Protocol → InHeader → M Op
convert_create p h = do
  b ← take_struct (create_in_size p)
  name ← name_before_nul (← take_rest)
  pure (
      create_file (record {
        parent = h.nodeid;
        name = name;
        mode = convert_file_mode (decode_create_in b).mode;
        entry = zero_entry;
        handle = 0;
        op_context = op_context h;
      }))

-- The two names in "first\0second\0", the second without the last byte.
unfoldable pub two_names : Bytes → M (Bytes × Bytes)
two_names b = do
  reject_if (not (ends_nul b))
  i ← or_reject (index_nul b)
  second ← or_panic (slice (i + 1) (length b - 1) b)
  pure (take i b, second)

unfoldable pub convert_symlink : InHeader → M Op
convert_symlink h = do
  (name, target) ← two_names (← take_rest)
  pure (
      create_symlink (record {
        parent = h.nodeid;
        name = name;
        target = target;
        entry = zero_entry;
        op_context = op_context h;
      }))

-- The flags of macFUSE, if they are all zero, are skipped.
unfoldable pub zeros_first : ℕ → Bytes → Bool
zeros_first zero b = true
zeros_first (suc n) [] = false
zeros_first (suc n) (b ∷ bs) = b == 0 && zeros_first n bs

unfoldable pub skip_flags : Bytes → Bytes
unfolding zeros_first
skip_flags names = if zeros_first 8 names then drop 8 names else names

unfoldable pub convert_rename : InHeader → M Op
convert_rename h = do
  b ← take_struct (size_of rename_in)
  rest ← take_rest
  let names = skip_flags rest
  reject_if (ltb (length names) 4)
  (old_name, new_name) ← two_names names
  pure (
      rename (record {
        old_parent = h.nodeid;
        old_name = old_name;
        new_parent = (decode_rename_in b).newdir;
        new_name = new_name;
        op_context = op_context h;
      }))

-- The buffer is grown only for a size that is not zero.
unfoldable pub grown : ℕ → M Buffer
grown n = if n == 0 then pure nil else grow_buffer n

unfoldable pub convert_getxattr : InHeader → M Op
unfolding grown
convert_getxattr h = do
  b ← take_struct (size_of getxattr_in)
  name ← name_before_nul (← take_rest)
  dst ← grown (decode_getxattr_in b).size
  pure (
      get_xattr (record {
        inode = h.nodeid;
        name = name;
        dst = dst;
        bytes_read = 0;
        op_context = op_context h;
      }))

unfoldable pub convert_setxattr : InHeader → M Op
convert_setxattr h = do
  b ← take_struct (size_of setxattr_in)
  payload ← take_rest
  reject_if (ltb (length payload) 3)
  i ← or_reject (index_nul payload)
  pure (
      set_xattr (record {
        inode = h.nodeid;
        name = take i payload;
        value = drop (i + 1) payload;
        flags = (decode_setxattr_in b).flags;
        op_context = op_context h;
      }))

unfoldable pub convert_link : InHeader → M Op
convert_link h = do
  b ← take_struct (size_of link_in)
  name ← name_before_nul (← take_rest)
  reject_if (length name == 0)
  pure (
      create_link (record {
        parent = h.nodeid;
        name = name;
        target = (decode_link_in b).oldnodeid;
        entry = zero_entry;
        op_context = op_context h;
      }))
