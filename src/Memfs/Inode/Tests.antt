-- ===== src/Memfs/Inode/Tests.antt =====
-- A directory of two children with a gap between them.
use fuse.Base.{
  ℕ,
  suc,
  ◌+◌,
  ◌≡◌,
  ◌⊎◌,
  refl,
  true,
  none,
  some,
  [],
  ◌∷◌,
  ◌++◌,
  length,
  drop,
  replicate,
  All,
  Bytes.{Bytes, bytes_eq},
  done,
  panic,
  if◌then◌else◌,
  arith,
}
use fuse.Dirent.{dt_file, dt_directory, pad_len}
use fuse.Memfs.Inode.{
  Attributes, Inode, mode_dir, is_dir, is_file, len, look_up_child, index_of, entry_at, unused_at,
  add_child, remove_child, read_dir,
}
use fuse.Memfs.Inode.Entries.{has_used}
use fuse.Memfs.Inode.Invariant.{IsValid}
use fuse.Memfs.Inode.Directory.{add_child_lem, remove_child-look_up_child}
use fuse.Memfs.Inode.Listing.{used, fitting, encode_all, read_dir_lem}
use fuse.Memfs.Inode.Reader.{Listable, list_all, list_all_lem}

abbrev attributes : ℕ → ℕ → Attributes
attributes mode size = record {
  size = size;
  nlink = 1;
  mode = mode;
  rdev = 0;
  atime = 0;
  mtime = 0;
  ctime = 0;
  crtime = 0;
  uid = 0;
  gid = 0;
}

abbrev a_name : Bytes
a_name = 97 ∷ []

abbrev b_name : Bytes
b_name = 98 ∷ []

abbrev c_name : Bytes
c_name = 99 ∷ []

abbrev dir : Inode
dir = record {
  name = [];
  attrs = attributes (mode_dir + 448) 0;
  entries = entry_at 0 2 a_name dt_file ∷ unused_at 1 ∷ entry_at 2 3 b_name dt_directory ∷ [];
  contents = [];
  target = [];
  xattrs = [];
}

dir-is_dir : is_dir dir ≡ true
unfolding is_dir
dir-is_dir = refl

dir-IsValid : IsValid dir
unfolding is_file is_dir has_used bytes_eq
dir-IsValid = record {
  mode_bits = refl;
  one_kind = λ _. refl;
  size_exact = refl;
  only_dir_entries = λ e. cc;
  offsets = omega arith;
  unique_names = ground arith;
  only_file_contents = λ _. refl;
  only_link_target = λ _. refl;
  unused_blank = (refl, (refl, (refl, tt)));
}

no_c : look_up_child c_name dir ≡ done none
unfolding look_up_child index_of is_dir bytes_eq
no_c = refl

add_child_lem_example :
    let x' = add_child 5 4 c_name dt_file dir in
    IsValid x'
    × (len x' ≡ suc (len dir))
    × (look_up_child a_name x'
        ≡ (if bytes_eq c_name a_name then done (some (4, dt_file)) else look_up_child a_name dir))
add_child_lem_example =
    add_child_lem 5 4 c_name a_name dt_file dir dir-IsValid dir-is_dir (λ e. cc) (λ e. cc)
      (omega arith) no_c

remove_child-look_up_child_example :
    ((look_up_child a_name dir ≡ done none) × (remove_child 5 a_name dir ≡ panic))
    ⊎ ((x' : Inode) × (remove_child 5 a_name dir ≡ done x')
        × IsValid x'
        × (suc (len x') ≡ len dir)
        × (look_up_child b_name x'
            ≡ (if bytes_eq a_name b_name then done none else look_up_child b_name dir)))
remove_child-look_up_child_example =
    remove_child-look_up_child 5 a_name b_name dir dir-IsValid dir-is_dir (λ e. cc) (λ e. cc)

read_dir_lem_example :
    let shown = encode_all (fitting 40 (used (drop 0 dir.entries))) in
    read_dir (replicate 40 0) 0 dir
    ≡ done (shown ++ drop (length shown) (replicate 40 0), length shown)
read_dir_lem_example = read_dir_lem (replicate 40 0) 0 dir dir-is_dir (omega arith)

dir-used :
    used (drop 0 dir.entries)
    ≡ [] ++ (entry_at 0 2 a_name dt_file ∷ entry_at 2 3 b_name dt_directory ∷ [])
unfolding used
dir-used = refl

dir-Listable : All (Listable 40) dir.entries
unfolding pad_len
dir-Listable = omega arith

list_all_lem_example : list_all 3 40 0 dir ≡ used dir.entries
unfolding used
list_all_lem_example =
    list_all_lem 40 dir dir-IsValid dir-is_dir dir-Listable (omega arith) 3 (omega arith)
