-- ===== src/Memfs/Handlers/Creation.antt =====
-- The handlers that make names: a name that exists, and a new directory.
use fuse.Base.{
  ℕ,
  ◌≡◌,
  ◌≢◌,
  ◌⊎◌,
  inl,
  inr,
  refl,
  sym,
  ap,
  ◌∙◌,
  true,
  Option,
  none,
  some,
  [],
  get_elem?,
  get_elem?-set_ne,
  Bytes.{Bytes, bytes_eq_refl},
  done,
  arith,
}
use fuse.Errors.{eexist}
use fuse.Dirent.{dt_directory}
use fuse.Memfs.Inode.{Inode, is_dir, look_up_child, add_child, new_inode}
use fuse.Memfs.Inode.Invariant.{IsValid}
use fuse.Memfs.Inode.Directory.{add_child_lem}
use fuse.Memfs.Store.{MemFs, ok, err, ◌>>=◌, put_inode}
use fuse.Memfs.Store.Access.{Has, get_inode_or_die_lem, modify_inode_lem, put_inode_same}
use fuse.Memfs.Store.Allocation.{FreeAreNil, Allocated, allocate_inode-Allocated}
use fuse.Memfs.Handlers.Names.{
  child_entry, owned, name_is_new, link_child, look_up_inode, mk_dir, create_file,
  create_file_helper, create_symlink, create_link,
}

name_exists :
    (parent : ℕ) (name : Bytes) (c : ℕ × ℕ) (dir : Inode) (fs : MemFs)
    → Has fs parent dir
    → look_up_child name dir ≡ done (some c)
    → name_is_new parent name fs ≡ done (err eexist, fs)
name_exists parent name c dir fs h found =
    rw (get_inode_or_die_lem parent dir fs h, ◌>>=◌) (rw (found, ◌>>=◌) refl)

name_new :
    (parent : ℕ) (name : Bytes) (dir : Inode) (fs : MemFs)
    → Has fs parent dir
    → look_up_child name dir ≡ done none
    → name_is_new parent name fs ≡ done (ok tt, fs)
name_new parent name dir fs h new =
    rw (get_inode_or_die_lem parent dir fs h, ◌>>=◌) (rw (new, ◌>>=◌) refl)

create_exists :
    (clock : ℕ → ℕ) (parent mode id : ℕ) (name target : Bytes) (c : ℕ × ℕ) (dir : Inode)
    (fs : MemFs)
    → Has fs parent dir
    → look_up_child name dir ≡ done (some c)
    → (mk_dir clock parent name mode fs ≡ done (err eexist, fs))
      × (create_file clock parent name mode fs ≡ done (err eexist, fs))
      × (create_symlink clock parent name target fs ≡ done (err eexist, fs))
      × (create_link clock parent name id fs ≡ done (err eexist, fs))
unfolding mk_dir create_file create_file_helper create_symlink create_link
create_exists clock parent mode id name target c dir fs h found =
    let e = name_exists parent name c dir fs h found in
    (rw (e, ◌>>=◌) refl, rw (e, ◌>>=◌) refl, rw (e, ◌>>=◌) refl, rw (e, ◌>>=◌) refl)

not_parent :
    (fs fs' : MemFs) (parent id : ℕ) (dir x : Inode)
    → Has fs parent dir
    → Allocated fs x id fs'
    → parent ≢ id
not_parent fs fs' parent id dir x h (inl out, _, _) same =
    let clash : ◌≡◌ {A = Option (Option Inode)} none (some (some dir)) =
      sym out ∙ ap (get_elem? fs.inodes) (sym same) ∙ h in
    cc
not_parent fs fs' parent id dir x h (inr nil, _, _) same =
    let clash : ◌≡◌ {A = Option (Option Inode)} (some none) (some (some dir)) =
      sym nil ∙ ap (get_elem? fs.inodes) (sym same) ∙ h in
    cc

-- The entry is made and the child is found under its ID.
link_child_lem :
    (t₁ t₂ parent id dt : ℕ) (name : Bytes) (dir x : Inode) (fs : MemFs)
    → Has fs parent dir
    → Has fs id x
    → parent ≢ id
    → link_child t₁ t₂ parent name id dt fs
      ≡ done (ok (child_entry t₂ id x.attrs), put_inode parent (add_child t₁ id name dt dir) fs)
link_child_lem t₁ t₂ parent id dt name dir x fs h there other =
    let dir' : Inode = add_child t₁ id name dt dir in
    let fs' : MemFs = put_inode parent dir' fs in
    let still : Has fs' id x = get_elem?-set_ne fs.inodes parent id (some dir') other ∙ there in
    rw (modify_inode_lem parent (λ d. done (add_child t₁ id name dt d)) dir dir' fs h refl, ◌>>=◌)
      (rw (get_inode_or_die_lem id x fs' still, ◌>>=◌) refl)

look_up_inode_run :
    (clock : ℕ → ℕ) (parent id dt : ℕ) (name : Bytes) (dir x : Inode) (fs : MemFs)
    → Has fs parent dir
    → look_up_child name dir ≡ done (some (id, dt))
    → Has fs id x
    → look_up_inode clock parent name fs ≡ done (ok (child_entry (clock 0) id x.attrs), fs)
unfolding look_up_inode
look_up_inode_run clock parent id dt name dir x fs h found there =
    rw (get_inode_or_die_lem parent dir fs h, ◌>>=◌)
      (rw (found, ◌>>=◌) (rw (get_inode_or_die_lem id x fs there, ◌>>=◌) refl))

module _ (clock : ℕ → ℕ) (parent mode : ℕ) (name : Bytes) (dir : Inode) (fs : MemFs)
    (h : Has fs parent dir) (v : IsValid dir) (d : is_dir dir ≡ true) (ne : name ≢ [])
    (new : look_up_child name dir ≡ done none) (free : FreeAreNil fs) where
  -- The directory that `MkDir` makes.
  abbrev made : Inode
  made = new_inode (clock 0) (owned fs mode) name

  -- `MkDir` succeeds, and the parent has the child under its name.
  mk_dir_lem :
      (id : ℕ) × (fs' : MemFs) × (dir' : Inode) × (mk_dir clock parent name mode fs
        ≡ done (ok (child_entry (clock 2) id made.attrs), fs'))
      × ((get_elem? fs.inodes id ≡ none) ⊎ (get_elem? fs.inodes id ≡ some none))
      × Has fs' parent dir'
      × (look_up_child name dir' ≡ done (some (id, dt_directory)))
      × Has fs' id made
  unfolding mk_dir
  mk_dir_lem =
      let (id, fs₁, ran, (unused, there, kept)) =
        allocate_inode-Allocated (clock 0) (owned fs mode) name fs free in
      let other : parent ≢ id = not_parent fs fs₁ parent id dir made h (unused, there, kept) in
      let dir' : Inode = add_child (clock 1) id name dt_directory dir in
      let (_, _, found) =
        add_child_lem (clock 1) id name name dt_directory dir v d ne ne (omega arith) new in
      (
        id,
        put_inode parent dir' fs₁,
        dir',
        rw (name_new parent name dir fs h new, ◌>>=◌)
            (rw (ran, ◌>>=◌)
              (link_child_lem (clock 1) (clock 2) parent id dt_directory name dir made fs₁
                (kept parent dir h) there other)),
        unused,
        put_inode_same parent dir dir' fs₁ (kept parent dir h),
        found ∙ rw (bytes_eq_refl name) refl,
        get_elem?-set_ne fs₁.inodes parent id (some dir') other ∙ there,
      )

-- `MkDir` of a new name, which is not empty, in a valid directory, where the free IDs have no
-- inode, does not panic: the child gets an ID without an inode before, and `LookUpInode` of the
-- name then gives the same child with the same attributes, the caller's mode and the file system's
-- owner, and changes nothing.
pub look_up_inode-mk_dir :
    (clock clock' : ℕ → ℕ) (parent mode : ℕ) (name : Bytes) (dir : Inode) (fs : MemFs)
    → Has fs parent dir
    → IsValid dir
    → is_dir dir ≡ true
    → name ≢ []
    → look_up_child name dir ≡ done none
    → FreeAreNil fs
    → (id : ℕ) × (fs' : MemFs) × (let attrs = (new_inode (clock 0) (owned fs mode) name).attrs in
        (mk_dir clock parent name mode fs ≡ done (ok (child_entry (clock 2) id attrs), fs'))
        × ((get_elem? fs.inodes id ≡ none) ⊎ (get_elem? fs.inodes id ≡ some none))
        × (look_up_inode clock' parent name fs' ≡ done (ok (child_entry (clock' 0) id attrs), fs')))
look_up_inode-mk_dir clock clock' parent mode name dir fs h v d ne new free =
    let (id, fs', dir', ran, unused, has, found, there) =
      mk_dir_lem clock parent mode name dir fs h v d ne new free in
    (
      id,
      fs',
      (
        ran,
        unused,
        look_up_inode_run clock' parent id dt_directory name dir' _ fs' has found there,
      ),
    )

-- After `MkDir` of a new name, which is not empty, in a valid directory, where the free IDs have no
-- inode, `MkDir`, `CreateFile`, `CreateSymlink` and `CreateLink` of the same name in that directory
-- are all refused with EEXIST and change nothing.
pub create-mk_dir :
    (clock clock' : ℕ → ℕ) (parent mode mode' target_id : ℕ) (name target : Bytes) (dir : Inode)
    (fs : MemFs)
    → Has fs parent dir
    → IsValid dir
    → is_dir dir ≡ true
    → name ≢ []
    → look_up_child name dir ≡ done none
    → FreeAreNil fs
    → (id : ℕ) × (fs' : MemFs) × (let attrs = (new_inode (clock 0) (owned fs mode) name).attrs in
        (mk_dir clock parent name mode fs ≡ done (ok (child_entry (clock 2) id attrs), fs'))
        × (mk_dir clock' parent name mode' fs' ≡ done (err eexist, fs'))
        × (create_file clock' parent name mode' fs' ≡ done (err eexist, fs'))
        × (create_symlink clock' parent name target fs' ≡ done (err eexist, fs'))
        × (create_link clock' parent name target_id fs' ≡ done (err eexist, fs')))
create-mk_dir clock clock' parent mode mode' target_id name target dir fs h v d ne new free =
    let (id, fs', dir', ran, _, has, found, _) =
      mk_dir_lem clock parent mode name dir fs h v d ne new free in
    let (dir_refused, file_refused, symlink_refused, link_refused) =
      create_exists clock' parent mode' target_id name target (id, dt_directory) dir' fs' has
        found in
    (id, fs', (ran, dir_refused, file_refused, symlink_refused, link_refused))
