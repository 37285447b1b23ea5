-- ===== src/Memfs/Handlers/Files.antt =====
-- The handlers that read and write inodes: attributes, contents and extended attributes.
use fuse.Base.{
  ℕ,
  ◌+◌,
  ◌-◌,
  Bool,
  true,
  false,
  ◌&&◌,
  not,
  Option,
  none,
  some,
  List,
  [],
  ◌∷◌,
  length,
  is_some,
  Bytes.{Bytes, bytes_eq, to_le, copy},
  Outcome,
  done,
  panic,
  leb,
  ◌==◌,
  if◌then◌else◌,
}
use fuse.Errors.{Errno, eexist, enoattr, ebadf, erange}
use fuse.Memfs.Inode.{
  Attributes, Inode, is_dir, is_file, read_dir, read_at, write_at, set_attributes, fallocate,
}
use fuse.Memfs.Xattr
use fuse.Memfs.Store.{
  M, ok, ◌>>=◌, ◌>>◌, pure, raise, or_raise, lift, gets, get_inode_or_die, put_inode, modify_inode,
}
use fuse.Memfs.Handlers.Names.{year}

unfoldable pub stat_fs : M (Unit {0})
stat_fs = pure tt

unfoldable pub flush_file : M (Unit {0})
flush_file = pure tt

-- The attributes and their expiration.
unfoldable pub get_inode_attributes : (ℕ → ℕ) → ℕ → M (Attributes × ℕ)
get_inode_attributes clock id = do x ← get_inode_or_die id; pure (x.attrs, clock 0 + year)

-- A truncation to a size other than zero wants a handle; the error does not stop the handler.
abbrev pub handle_error : Option ℕ → Bool → Option Errno
handle_error none has_handle = none
handle_error (some size) has_handle = if not has_handle && not (size == 0) then some ebadf else none

-- The attributes and their expiration are filled in beside the error.
unfoldable pub set_inode_attributes :
    (ℕ → ℕ) → ℕ → Option ℕ → Option ℕ → Option ℕ → Bool → M (Option Errno × Attributes × ℕ)
set_inode_attributes clock id size mode mtime has_handle = do
  modify_inode id (set_attributes (clock 0) size mode mtime)
  x ← get_inode_or_die id
  pure (handle_error size has_handle, x.attrs, clock 1 + year)

abbrev pub or_die : Bool → M (Unit {0})
or_die true = pure tt
or_die false = lift panic

unfoldable pub open_dir : ℕ → M (Unit {0})
open_dir id = do x ← get_inode_or_die id; or_die (is_dir x)

-- The buffer after the call, and `BytesRead`.
unfoldable pub read_dir_op : ℕ → Bytes → ℕ → M (Bytes × ℕ)
read_dir_op id dst offset = do x ← get_inode_or_die id; lift (read_dir dst offset x)

-- The flags of `SetXattr`: 1 is XATTR_CREATE and 2 is XATTR_REPLACE.
abbrev pub flags_error : ℕ → Bool → Option Errno
flags_error flags exists =
    if flags == 1 && exists
    then some eexist
    else if flags == 2 && not exists
    then some enoattr
    else none

abbrev pub with_xattr : Bytes → Bytes → Inode → Inode
with_xattr name value x = record x { xattrs = Xattr.insert name value x.xattrs }

unfoldable pub set_xattr_helper : Inode → Bytes → Bytes → ℕ → Option Errno × Inode
set_xattr_helper x name value flags =
    elim (flags_error flags (is_some (Xattr.lookup name x.xattrs))) [
      | some e ↦ (some e, x)
      | none ↦ (none, with_xattr name value x)
    ]

unfoldable pub set_xattr : ℕ → Bytes → Bytes → ℕ → M (Unit {0})
set_xattr id name value flags = do
  x ← get_inode_or_die id
  let (error, x') = set_xattr_helper x name value flags
  elim error [ some e ↦ raise e | none ↦ λ fs. done (ok tt, put_inode id x' fs) ]

-- "checkFileOpenFlags" and "fileOpenFlagsXattr"
abbrev pub check_name : Bytes
check_name =
    99 ∷ 104 ∷ 101 ∷ 99 ∷ 107 ∷ 70 ∷ 105 ∷ 108 ∷ 101 ∷ 79 ∷ 112 ∷ 101 ∷ 110 ∷ 70 ∷ 108 ∷ 97 ∷ 103
    ∷ 115 ∷ []

abbrev pub flags_xattr_name : Bytes
flags_xattr_name =
    102 ∷ 105 ∷ 108 ∷ 101 ∷ 79 ∷ 112 ∷ 101 ∷ 110 ∷ 70 ∷ 108 ∷ 97 ∷ 103 ∷ 115 ∷ 88 ∷ 97 ∷ 116 ∷ 116
    ∷ 114 ∷ []

-- The flags are kept as an attribute. Without flags the helper returns no error.
abbrev pub note_flags : ℕ → Inode → Outcome Inode
note_flags open_flags x =
    let (error, x') = set_xattr_helper x flags_xattr_name (to_le 4 open_flags) 0 in
    elim error [ some e ↦ panic | none ↦ done x' ]

abbrev pub note_if : Bool → ℕ → ℕ → M (Unit {0})
note_if true id open_flags = modify_inode id (note_flags open_flags)
note_if false id open_flags = pure tt

unfoldable pub open_file : ℕ → ℕ → M (Unit {0})
open_file id open_flags = do
  x ← get_inode_or_die id
  or_die (is_file x)
  note_if (bytes_eq x.name check_name) id open_flags

-- The bytes read, and the callback; `io.EOF` is dropped.
unfoldable pub read_file : ℕ → ℕ → ℕ → M (Bytes × Option ℕ)
read_file id dst_len offset = do
  x ← get_inode_or_die id
  (got, _) ← lift (read_at dst_len offset x)
  callback ← gets (λ fs. fs.read_file_callback)
  pure (got, callback)

unfoldable pub write_file : (ℕ → ℕ) → ℕ → Bytes → ℕ → M (Option ℕ)
write_file clock id content offset = do
  x ← get_inode_or_die id
  (x', _) ← lift (write_at (clock 0) content offset x)
  λ fs. done (ok tt, put_inode id x' fs)
  gets (λ fs. fs.write_file_callback)

unfoldable pub read_symlink : ℕ → M Bytes
read_symlink id = do x ← get_inode_or_die id; pure x.target

-- `BytesRead` and the error, by the value and the room.
abbrev pub xattr_reply : ℕ → Bytes → M (ℕ × Bytes)
xattr_reply dst_len value =
    if leb (length value) dst_len
    then pure (length value, value)
    else if dst_len == 0
    then pure (length value, [])
    else raise erange

-- `BytesRead`, and the bytes copied to the front of the destination.
unfoldable pub get_xattr : ℕ → Bytes → ℕ → M (ℕ × Bytes)
get_xattr id name dst_len = do
  x ← get_inode_or_die id
  value ← or_raise (Xattr.lookup name x.xattrs) enoattr
  xattr_reply dst_len value

-- The loop of `ListXattr`: `at` bytes of the destination are used and `read` bytes are counted. The
-- byte behind a name is left as the destination has it.
unfoldable pub list_names : List (Bytes × Bytes) → Bytes → ℕ → ℕ → Option (ℕ × Bytes)
list_names [] dst at read = some (read, dst)
list_names ((name, _) ∷ m) dst at read =
    let size = length name + 1 in
    if leb size (length dst - at)
    then list_names m (copy at name dst).0 (at + size) (read + size)
    else if length dst == 0
    then list_names m dst at (read + size)
    else none

unfoldable pub list_xattr : ℕ → Bytes → M (ℕ × Bytes)
list_xattr id dst = do x ← get_inode_or_die id; or_raise (list_names x.xattrs dst 0 0) erange

unfoldable pub remove_xattr : ℕ → Bytes → M (Unit {0})
remove_xattr id name = do
  x ← get_inode_or_die id
  or_raise (Xattr.lookup name x.xattrs) enoattr
  modify_inode id (λ y. done (record y { xattrs = Xattr.erase name y.xattrs }))

-- The error of the inode's method is dropped.
unfoldable pub fallocate_op : ℕ → ℕ → ℕ → ℕ → M (Unit {0})
fallocate_op id mode offset len = do
  x ← get_inode_or_die id
  elim (fallocate mode offset len x) [
    | none ↦ pure tt
    | some x' ↦ λ fs. done (ok tt, put_inode id x' fs)
  ]
