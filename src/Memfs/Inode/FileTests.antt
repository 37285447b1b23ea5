-- ===== src/Memfs/Inode/FileTests.antt =====
-- A file of three bytes.
use fuse.Base.{
  ℕ, ◌+◌, ◌-◌, ◌/◌, ◌%◌, ◌≤◌, ◌≡◌, ◌≢◌, ◌⊎◌, refl, true, none, some, [], ◌∷◌, length, done, arith,
}
use fuse.Memfs.Inode.{
  Inode, mode_perm_count, is_dir, is_file, is_symlink, write_at, set_attributes, fallocate,
}
use fuse.Memfs.Store.{zero_attributes}
use fuse.Memfs.Inode.Invariant.{IsValid}
use fuse.Memfs.Inode.Contents.{byte_at, written}
use fuse.Memfs.Inode.Writes.{write_at_lem}
use fuse.Memfs.Inode.Resize.{truncated, perm_given, time_given, set_attributes_lem, fallocate_lem}

abbrev file : Inode
file = record {
  name = 97 ∷ [];
  attrs = record zero_attributes { mode = 420; size = 3 };
  entries = [];
  contents = 1 ∷ 2 ∷ 3 ∷ [];
  target = [];
  xattrs = [];
}

file-is_file : is_file file ≡ true
unfolding is_file is_dir is_symlink
file-is_file = refl

file-IsValid : IsValid file
unfolding is_file is_dir is_symlink
file-IsValid = record {
  mode_bits = refl;
  one_kind = λ e. cc;
  size_exact = refl;
  only_dir_entries = λ _. refl;
  offsets = tt;
  unique_names = tt;
  only_file_contents = λ e. cc;
  only_link_target = λ _. refl;
  unused_blank = tt;
}

-- A write behind the end, which leaves a hole.
write_at_lem_example :
    (x' : Inode) × (write_at 9 (7 ∷ 8 ∷ []) 5 file ≡ done (x', 2))
    × IsValid x'
    × ((i : ℕ) → byte_at x'.contents i ≡ written (7 ∷ 8 ∷ []) 5 file.contents i)
    × (length x'.contents ≡ length file.contents + (5 + 2 - length file.contents))
    × (x'.attrs.mtime ≡ 9)
write_at_lem_example =
    write_at_lem 9 (7 ∷ 8 ∷ []) 5 file file-IsValid file-is_file (omega arith) (omega arith)

set_attributes_lem_example :
    (x' : Inode) × (set_attributes 9 (some 2) (some 384) none file ≡ done x')
    × IsValid x'
    × (x'.contents ≡ truncated (some 2) file.contents)
    × (x'.attrs.mode / mode_perm_count ≡ file.attrs.mode / mode_perm_count)
    × (x'.attrs.mode % mode_perm_count ≡ perm_given (some 384) file.attrs.mode % mode_perm_count)
    × (x'.attrs.mtime ≡ time_given none 9)
set_attributes_lem_example =
    set_attributes_lem 9 (some 2) (some 384) none file file-IsValid file-is_file (omega arith)
      (λ s e. ground arith)

fallocate_lem_example :
    ((◌≢◌ {A = ℕ} 0 0) × (fallocate 0 2 6 file ≡ none))
    ⊎ ((◌≡◌ {A = ℕ} 0 0)
        × ((x' : Inode) × (fallocate 0 2 6 file ≡ some x')
            × IsValid x'
            × ((i : ℕ) → byte_at x'.contents i ≡ byte_at file.contents i)
            × (2 + 6 ≤ length x'.contents)
            × (length file.contents ≤ length x'.contents)))
fallocate_lem_example =
    fallocate_lem 0 2 6 file file-IsValid file-is_file (omega arith) (omega arith)
