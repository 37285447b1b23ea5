-- ===== src/Memfs/Handlers/Tests.antt =====
-- A file system with a file under ID 2 and a directory, the root, that holds it as "a".
use fuse.Base.{
  ℕ,
  ◌+◌,
  ◌≡◌,
  ◌⊎◌,
  ◌≢◌,
  refl,
  true,
  false,
  none,
  some,
  [],
  ◌∷◌,
  get_elem?,
  is_some,
  Bytes.{Bytes, bytes_eq},
  done,
  arith,
}
use fuse.Errors.{eexist, ebadf, enoattr}
use fuse.Dirent.{dt_file}
use fuse.Memfs.Inode.{
  Inode, mode_dir, is_dir, is_file, is_symlink, entry_at, look_up_child, index_of, new_inode,
}
use fuse.Memfs.Inode.Entries.{has_used}
use fuse.Memfs.Inode.Invariant.{IsValid}
use fuse.Memfs.Inode.Resize.{truncated}
use fuse.Memfs.Xattr
use fuse.Memfs.Store.{MemFs, ok, err, zero_attributes, put_inode, allocate_inode}
use fuse.Memfs.Store.Allocation.{FreeAreNil, Allocated, allocate_inode-Allocated}
use fuse.Memfs.Handlers.Names.{
  child_entry, owned, year, look_up_inode, mk_dir, create_file, create_symlink, create_link,
}
use fuse.Memfs.Handlers.Files.{set_xattr, get_xattr, set_inode_attributes, write_file, read_file}
use fuse.Memfs.Handlers.Contents.{read_file-write_file}
use fuse.Memfs.Handlers.Creation.{create-mk_dir, look_up_inode-mk_dir}
use fuse.Memfs.Handlers.Attributes.{get_xattr-set_xattr, set_inode_attributes_ebadf}

abbrev clock : ℕ → ℕ
clock i = 100 + i

abbrev a_name : Bytes
a_name = 97 ∷ []

abbrev b_name : Bytes
b_name = 98 ∷ []

abbrev root : Inode
root = record {
  name = [];
  attrs = record zero_attributes { mode = mode_dir + 448 };
  entries = entry_at 0 2 a_name dt_file ∷ [];
  contents = [];
  target = [];
  xattrs = [];
}

abbrev file : Inode
file = record {
  name = a_name;
  attrs = record zero_attributes { mode = 420; size = 3 };
  entries = [];
  contents = 1 ∷ 2 ∷ 3 ∷ [];
  target = [];
  xattrs = (b_name, 7 ∷ []) ∷ [];
}

-- The ID 3 is free.
abbrev fs : MemFs
fs = record {
  uid = 0;
  gid = 0;
  inodes = none ∷ some root ∷ some file ∷ none ∷ [];
  free_inodes = 3 ∷ [];
  read_file_callback = some 1;
  write_file_callback = none;
}

root-is_dir : is_dir root ≡ true
unfolding is_dir
root-is_dir = refl

file-is_file : is_file file ≡ true
unfolding is_file is_dir is_symlink
file-is_file = refl

root-IsValid : IsValid root
unfolding is_file is_dir has_used bytes_eq
root-IsValid = record {
  mode_bits = refl;
  one_kind = λ _. refl;
  size_exact = refl;
  only_dir_entries = λ e. cc;
  offsets = omega arith;
  unique_names = ground arith;
  only_file_contents = λ _. refl;
  only_link_target = λ _. refl;
  unused_blank = (ground arith, tt);
}

file-IsValid : IsValid file
unfolding is_file is_dir is_symlink
file-IsValid = record {
  mode_bits = refl;
  one_kind = λ e. cc;
  size_exact = refl;
  only_dir_entries = λ _. refl;
  offsets = tt;
  unique_names = tt;
  only_file_contents = λ e. cc;
  only_link_target = λ _. refl;
  unused_blank = tt;
}

a_found : look_up_child a_name root ≡ done (some (2, dt_file))
unfolding look_up_child index_of is_dir bytes_eq
a_found = refl

no_b : look_up_child b_name root ≡ done none
unfolding look_up_child index_of is_dir bytes_eq
no_b = refl

fs-FreeAreNil : FreeAreNil fs
fs-FreeAreNil = (refl, tt)

read_file-write_file_example :
    (fs' : MemFs) × (write_file clock 2 (7 ∷ 8 ∷ []) 5 fs ≡ done (ok none, fs'))
    × (read_file 2 2 5 fs' ≡ done (ok (7 ∷ 8 ∷ [], some 1), fs'))
    × (get_elem? fs'.inodes 1 ≡ get_elem? fs.inodes 1)
read_file-write_file_example =
    read_file-write_file clock 2 1 (7 ∷ 8 ∷ []) 5 file fs (omega arith) refl file-IsValid
      file-is_file (omega arith) (omega arith)

create-mk_dir_example :
    (id : ℕ) × (fs' : MemFs) × (let attrs = (new_inode (clock 0) (owned fs 448) b_name).attrs in
      (mk_dir clock 1 b_name 448 fs ≡ done (ok (child_entry (clock 2) id attrs), fs'))
      × (mk_dir clock 1 b_name 384 fs' ≡ done (err eexist, fs'))
      × (create_file clock 1 b_name 384 fs' ≡ done (err eexist, fs'))
      × (create_symlink clock 1 b_name a_name fs' ≡ done (err eexist, fs'))
      × (create_link clock 1 b_name 2 fs' ≡ done (err eexist, fs')))
create-mk_dir_example =
    create-mk_dir clock clock 1 448 384 2 b_name a_name root fs refl root-IsValid root-is_dir
      (λ e. cc) no_b fs-FreeAreNil

allocate_inode-Allocated_example :
    (id : ℕ) × (fs' : MemFs) × (allocate_inode 9 zero_attributes b_name fs ≡ done (ok id, fs'))
    × Allocated fs (new_inode 9 zero_attributes b_name) id fs'
allocate_inode-Allocated_example =
    allocate_inode-Allocated 9 zero_attributes b_name fs fs-FreeAreNil

look_up_inode-mk_dir_example :
    (id : ℕ) × (fs' : MemFs) × (let attrs = (new_inode (clock 0) (owned fs 448) b_name).attrs in
      (mk_dir clock 1 b_name 448 fs ≡ done (ok (child_entry (clock 2) id attrs), fs'))
      × ((get_elem? fs.inodes id ≡ none) ⊎ (get_elem? fs.inodes id ≡ some none))
      × (look_up_inode clock 1 b_name fs' ≡ done (ok (child_entry (clock 0) id attrs), fs')))
look_up_inode-mk_dir_example =
    look_up_inode-mk_dir clock clock 1 448 b_name root fs refl root-IsValid root-is_dir (λ e. cc)
      no_b fs-FreeAreNil

get_xattr-set_xattr_example :
    let exists = is_some (Xattr.lookup b_name file.xattrs) in
    (◌≡◌ {A = ℕ} 2 1
      × (exists ≡ true)
      × (set_xattr 2 b_name (5 ∷ 6 ∷ []) 2 fs ≡ done (err eexist, fs)))
    ⊎ ((◌≡◌ {A = ℕ} 2 2
          × (exists ≡ false)
          × (set_xattr 2 b_name (5 ∷ 6 ∷ []) 2 fs ≡ done (err enoattr, fs)))
        ⊎ ((◌≢◌ {A = ℕ} 2 1 ⊎ (exists ≡ false))
            × (◌≢◌ {A = ℕ} 2 2 ⊎ (exists ≡ true))
            × ((fs' : MemFs) × (set_xattr 2 b_name (5 ∷ 6 ∷ []) 2 fs ≡ done (ok tt, fs'))
                × (get_xattr 2 b_name 10 fs' ≡ done (ok (2, 5 ∷ 6 ∷ []), fs')))))
get_xattr-set_xattr_example =
    get_xattr-set_xattr 2 2 10 b_name (5 ∷ 6 ∷ []) file fs refl (omega arith)

set_inode_attributes_ebadf_example :
    (x' : Inode) × (set_inode_attributes clock 2 (some 2) none none false fs
      ≡ done (ok (some ebadf, x'.attrs, clock 1 + year), put_inode 2 x' fs))
    × IsValid x'
    × (x'.contents ≡ truncated (some 2) file.contents)
set_inode_attributes_ebadf_example =
    set_inode_attributes_ebadf clock 2 2 none none file fs refl file-IsValid file-is_file
      (omega arith) (omega arith) (omega arith)
