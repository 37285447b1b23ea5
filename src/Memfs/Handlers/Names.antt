-- ===== src/Memfs/Handlers/Names.antt =====
-- The handlers that look up, make, link, rename and remove names.
use fuse.Base.{
  ℕ,
  ◌+◌,
  ◌-◌,
  ◌*◌,
  ◌^◌,
  not,
  Option,
  none,
  some,
  replicate,
  is_some,
  Bytes.{Bytes},
  Word.{u32},
  Outcome,
  done,
  panic,
  ltb,
  ◌==◌,
  if◌then◌else◌,
}
use fuse.Errors.{eexist, enoent, enotempty}
use fuse.Dirent.{dt_directory, dt_file, dt_link}
pub use fuse.Fuseops.Types.{ChildInodeEntry}
use fuse.Memfs.Inode.{
  Attributes, Inode, mode_symlink, is_dir, len, look_up_child, add_child, remove_child, read_dir,
}
use fuse.Memfs.Store.{
  MemFs, M, ◌>>=◌, ◌>>◌, pure, raise_if, or_raise, lift, gets, get_inode_or_die, modify_inode,
  allocate_inode, zero_attributes,
}

-- `365 * 24 * time.Hour`
abbrev pub year : ℕ
year = 365 * 24 * 3600 * 10 ^ 9

-- The response for a child, which may be cached for a year.
abbrev pub child_entry : ℕ → ℕ → Attributes → ChildInodeEntry
child_entry now id attrs = record {
  child = id;
  generation = 0;
  attributes = attrs;
  attributes_expiration = now + year;
  entry_expiration = now + year;
}

unfoldable pub look_up_inode : (ℕ → ℕ) → ℕ → Bytes → M ChildInodeEntry
look_up_inode clock parent name = do
  dir ← get_inode_or_die parent
  found ← lift (look_up_child name dir)
  (id, _) ← or_raise found enoent
  child ← get_inode_or_die id
  pure (child_entry (clock 0) id child.attrs)

-- The common start of the handlers that make a name: it must be new.
abbrev pub name_is_new : ℕ → Bytes → M (Unit {0})
name_is_new parent name = do
  dir ← get_inode_or_die parent
  found ← lift (look_up_child name dir)
  raise_if (is_some found) eexist

-- The common end: the entry in the parent, and the response.
abbrev pub link_child : ℕ → ℕ → ℕ → Bytes → ℕ → ℕ → M ChildInodeEntry
link_child add_time entry_time parent name id dt = do
  modify_inode parent (λ dir. done (add_child add_time id name dt dir))
  child ← get_inode_or_die id
  pure (child_entry entry_time id child.attrs)

abbrev pub owned : MemFs → ℕ → Attributes
owned fs mode = record zero_attributes { nlink = 1; mode = mode; uid = fs.uid; gid = fs.gid }

unfoldable pub mk_dir : (ℕ → ℕ) → ℕ → Bytes → ℕ → M ChildInodeEntry
mk_dir clock parent name mode = do
  name_is_new parent name
  attrs ← gets (λ fs. owned fs mode)
  id ← allocate_inode (clock 0) attrs name
  link_child (clock 1) (clock 2) parent name id dt_directory

-- Attributes with all times set.
abbrev pub dated : ℕ → Attributes → Attributes
dated now attrs = record attrs { atime = now; mtime = now; ctime = now; crtime = now }

unfoldable pub create_file_helper : (ℕ → ℕ) → ℕ → Bytes → ℕ → M ChildInodeEntry
create_file_helper clock parent name mode = do
  name_is_new parent name
  attrs ← gets (λ fs. dated (clock 0) (owned fs mode))
  id ← allocate_inode (clock 1) attrs name
  link_child (clock 2) (clock 3) parent name id dt_file

unfoldable pub mk_node : (ℕ → ℕ) → ℕ → Bytes → ℕ → M ChildInodeEntry
unfolding create_file_helper
mk_node clock parent name mode = create_file_helper clock parent name mode

unfoldable pub create_file : (ℕ → ℕ) → ℕ → Bytes → ℕ → M ChildInodeEntry
unfolding create_file_helper
create_file clock parent name mode = create_file_helper clock parent name mode

-- `0444 | os.ModeSymlink`
abbrev pub symlink_mode : ℕ
symlink_mode = 292 + mode_symlink

unfoldable pub create_symlink : (ℕ → ℕ) → ℕ → Bytes → Bytes → M ChildInodeEntry
create_symlink clock parent name target = do
  name_is_new parent name
  attrs ← gets (λ fs. dated (clock 0) (owned fs symlink_mode))
  id ← allocate_inode (clock 1) attrs name
  modify_inode id (λ x. done (record x { target = target }))
  link_child (clock 2) (clock 3) parent name id dt_link

-- `Nlink++` and `Nlink--` on a uint32.
abbrev pub with_nlink : ℕ → Inode → Inode
with_nlink n x = record x { attrs = record x.attrs { nlink = n } }

abbrev pub linked : ℕ → Inode → Inode
linked now x = record x { attrs = record x.attrs { nlink = u32 (x.attrs.nlink + 1); ctime = now } }

abbrev pub unlinked : Inode → Inode
unlinked x = with_nlink (u32 (x.attrs.nlink + (2 ^ 32 - 1))) x

unfoldable pub create_link : (ℕ → ℕ) → ℕ → Bytes → ℕ → M ChildInodeEntry
create_link clock parent name target = do
  name_is_new parent name
  modify_inode target (λ x. done (linked (clock 0) x))
  link_child (clock 1) (clock 2) parent name target dt_file

-- The number of bytes that `ReadDir` into a buffer of 4096 shows of a directory.
abbrev pub shown_of : Inode → Outcome ℕ
shown_of x =
    if is_dir x
    then elim (read_dir (replicate 4096 0) 0 x) [ panic ↦ panic | done (_, n) ↦ done n ]
    else done 0

-- An existing entry under the new name goes, unless it is a directory that is not empty.
unfoldable pub make_way : ℕ → ℕ → Bytes → Option (ℕ × ℕ) → M (Unit {0})
make_way now parent name none = pure tt
make_way now parent name (some (id, _)) = do
  existing ← get_inode_or_die id
  shown ← lift (shown_of existing)
  raise_if (ltb 0 shown) enotempty
  modify_inode parent (remove_child now name)

unfoldable pub rename : (ℕ → ℕ) → ℕ → Bytes → ℕ → Bytes → M (Unit {0})
unfolding make_way
rename clock old_parent old_name new_parent new_name = do
  old_dir ← get_inode_or_die old_parent
  found ← lift (look_up_child old_name old_dir)
  (id, dt) ← or_raise found enoent
  new_dir ← get_inode_or_die new_parent
  existing ← lift (look_up_child new_name new_dir)
  make_way (clock 0) new_parent new_name existing
  modify_inode new_parent (λ dir. done (add_child (clock 1) id new_name dt dir))
  modify_inode old_parent (remove_child (clock 2) old_name)

unfoldable pub rm_dir : (ℕ → ℕ) → ℕ → Bytes → M (Unit {0})
rm_dir clock parent name = do
  dir ← get_inode_or_die parent
  found ← lift (look_up_child name dir)
  (id, _) ← or_raise found enoent
  child ← get_inode_or_die id
  raise_if (not (len child == 0)) enotempty
  modify_inode parent (remove_child (clock 0) name)
  modify_inode id (λ x. done (unlinked x))

unfoldable pub unlink : (ℕ → ℕ) → ℕ → Bytes → M (Unit {0})
unlink clock parent name = do
  dir ← get_inode_or_die parent
  found ← lift (look_up_child name dir)
  (id, _) ← or_raise found enoent
  child ← get_inode_or_die id
  modify_inode parent (remove_child (clock 0) name)
  modify_inode id (λ x. done (unlinked x))
