-- ===== src/Memfs/Inode/Directory.antt =====
-- A directory is a map from names to children, which `AddChild` and `RemoveChild` update.
use fuse.Base.{
  ℕ,
  suc,
  ◌≡◌,
  ◌≢◌,
  ◌⊎◌,
  inl,
  inr,
  ap,
  ◌∙◌,
  true,
  none,
  some,
  [],
  List,
  Option,
  Bytes.{Bytes, bytes_eq},
  done,
  panic,
  if◌then◌else◌,
  arith,
}
use fuse.Dirent.{Dirent, dt_unknown}
use fuse.Memfs.Inode.{Inode, is_dir, is_file, len, look_up_child, add_child, remove_child}
use fuse.Memfs.Inode.Entries.{
  OffsetsFrom, UniqueNames, UnusedBlank, lookup, insert, remove, without, look_up_child-lookup,
  add_entry_lem, remove_child_lem, insert-offsets, remove-offsets, insert-blank, remove-blank,
  has_used-lookup, insert_unique, remove_unique, lookup-insert, lookup-remove, count_used-insert,
  count_used-remove,
}
use fuse.Memfs.Inode.Invariant.{IsValid}

-- A lookup in a directory is the lookup in its entries.
lookups_of_entries :
    (x x' : Inode) (n m : Bytes) (found : Option (ℕ × ℕ))
    → is_dir x ≡ true
    → is_dir x' ≡ true
    → lookup m x'.entries ≡ (if bytes_eq n m then found else lookup m x.entries)
    → look_up_child m x' ≡ (if bytes_eq n m then done found else look_up_child m x)
lookups_of_entries x x' n m found d d' h =
    ground (arith, look_up_child-lookup m x d, look_up_child-lookup m x' d')

done_none :
    (x : Inode) (n : Bytes)
    → is_dir x ≡ true
    → look_up_child n x ≡ done none
    → lookup n x.entries ≡ none
done_none x n d h = ground (arith, look_up_child-lookup n x d)

-- New entries and a new modification time keep a directory valid, if the entries are.
with_entries : ℕ → List Dirent → Inode → Inode
with_entries now es x = record x { attrs = record x.attrs { mtime = now }; entries = es }

with_entries-IsValid :
    (now : ℕ) (es : List Dirent) (x : Inode)
    → IsValid x
    → is_dir x ≡ true
    → OffsetsFrom 0 es
    → UniqueNames es
    → UnusedBlank es
    → IsValid (with_entries now es x)
unfolding with_entries is_file
with_entries-IsValid now es x v d offsets unique blank = record {
  mode_bits = v.mode_bits;
  one_kind = v.one_kind;
  size_exact = v.size_exact;
  only_dir_entries = λ e. absurd (ground arith);
  offsets = offsets;
  unique_names = unique;
  only_file_contents = v.only_file_contents;
  only_link_target = v.only_link_target;
  unused_blank = blank;
}

-- In a valid directory, a child added under a new name (not empty, with a type) is found by it, with the given ID and type; every other name
-- finds what it found before, the number of children grows by one, and the inode stays valid.
pub add_child_lem :
    (now id : ℕ) (n m : Bytes) (dt : ℕ) (x : Inode)
    → IsValid x
    → is_dir x ≡ true
    → n ≢ []
    → m ≢ []
    → dt ≢ dt_unknown
    → look_up_child n x ≡ done none
    → let x' = add_child now id n dt x in
      IsValid x'
      × (len x' ≡ suc (len x))
      × (look_up_child m x' ≡ (if bytes_eq n m then done (some (id, dt)) else look_up_child m x))
unfolding add_child len with_entries is_dir
add_child_lem now id n m dt x v d ne nonempty used new =
    let es = insert 0 id n dt x.entries in
    let missing = done_none x n d new in
    let blank = insert-blank 0 id n dt x.entries ne used v.unused_blank in
    rw (add_entry_lem id n dt x.entries) (
      with_entries-IsValid now es x v d (insert-offsets 0 id n dt x.entries v.offsets)
          (insert_unique 0 id n dt x.entries (has_used-lookup n x.entries missing) v.unique_names)
          blank,
      count_used-insert 0 id n dt x.entries used,
      lookups_of_entries x (with_entries now es x) n m (some (id, dt)) d d
          (lookup-insert m 0 id n dt x.entries nonempty v.unused_blank missing),
    )

-- In a valid directory, for names that are not empty: without an entry for the name `RemoveChild`
-- panics; with one, the name finds nothing afterwards, every other name finds what it found before,
-- there is one child less, and the inode stays valid.
pub remove_child-look_up_child :
    (now : ℕ) (n m : Bytes) (x : Inode)
    → IsValid x
    → is_dir x ≡ true
    → n ≢ []
    → m ≢ []
    → ((look_up_child n x ≡ done none) × (remove_child now n x ≡ panic))
      ⊎ ((x' : Inode) × (remove_child now n x ≡ done x')
          × IsValid x'
          × (suc (len x') ≡ len x)
          × (look_up_child m x' ≡ (if bytes_eq n m then done none else look_up_child m x)))
unfolding len with_entries is_dir
remove_child-look_up_child now n m x v d ne nonempty = elim (remove_child_lem now n x d) [
  | inl (missing, panics) ↦ inl (look_up_child-lookup n x d ∙ ap done missing, panics)
  | inr (there, runs) ↦ inr (
    without now n x,
    runs,
    with_entries-IsValid now (remove 0 n x.entries) x v d (remove-offsets 0 n x.entries v.offsets)
        (remove_unique 0 n x.entries v.unique_names) (remove-blank 0 n x.entries v.unused_blank),
    count_used-remove 0 n x.entries ne v.unused_blank there,
    lookups_of_entries x (without now n x) n m none d d
        (lookup-remove m 0 n x.entries nonempty ne v.unused_blank v.unique_names),
  )
]
