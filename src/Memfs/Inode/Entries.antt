-- ===== src/Memfs/Inode/Entries.antt =====
-- The entries of a directory as a map from names to children.
use fuse.Base.{
  ℕ,
  zero,
  suc,
  ◌+◌,
  ◌≡◌,
  ◌≢◌,
  ◌⊎◌,
  refl,
  ap,
  ◌∙◌,
  Bool,
  true,
  false,
  not,
  ◌&&◌,
  ◌||◌,
  Option,
  none,
  some,
  List,
  [],
  ◌∷◌,
  ◌++◌,
  length,
  set,
  Bytes.{Bytes, bytes_eq, bytes_eq_iff},
  done,
  panic,
  if◌then◌else◌,
  Option-cases,
  inl,
  inr,
  arith,
}
use fuse.Dirent.{Dirent, dt_unknown}
use fuse.Memfs.Inode.{
  Inode, is_dir, is_unused, index_of, first_gap, find_child, child_at, look_up_child, entry_at,
  unused_at, add_entry, remove_child, count_used,
}

-- The child with a name: the first entry that has it.
unfoldable pub lookup : Bytes → List Dirent → Option (ℕ × ℕ)
lookup n [] = none
lookup n (e ∷ es) = if bytes_eq e.name n then some (e.inode, e.type) else lookup n es

-- Entry number k has offset k + 1, for the entries from number k on.
abbrev pub OffsetsFrom : ℕ → List Dirent → Type 0
OffsetsFrom k [] = Unit
OffsetsFrom k (e ∷ es) = (e.offset ≡ suc k) × OffsetsFrom (suc k) es

unfoldable pub has_used : Bytes → List Dirent → Bool
has_used n [] = false
has_used n (e ∷ es) = not (is_unused e) && bytes_eq e.name n || has_used n es

-- No two used entries have one name.
abbrev pub UniqueNames : List Dirent → Type 0
UniqueNames [] = Unit
UniqueNames (e ∷ es) = (is_unused e ≡ false → has_used e.name es ≡ false) × UniqueNames es

-- Exactly the unused entries have the empty name.
abbrev pub UnusedBlank : List Dirent → Type 0
UnusedBlank [] = Unit
UnusedBlank (e ∷ es) = (is_unused e ≡ bytes_eq e.name []) × UnusedBlank es

index_of-lookup : (n : Bytes) (es : List Dirent) → child_at es (index_of n es) ≡ done (lookup n es)
unfolding index_of child_at lookup
index_of-lookup n [] = refl
index_of-lookup n (e ∷ es) = ground (arith, index_of-lookup n es)

-- `LookUpChild` on a directory finds what the entries say.
pub look_up_child-lookup :
    (n : Bytes) (x : Inode) → is_dir x ≡ true → look_up_child n x ≡ done (lookup n x.entries)
unfolding look_up_child find_child
look_up_child-lookup n x d = rw d (index_of-lookup n x.entries)

-- `AddChild` as one walk over the entries, from number k on.
unfoldable pub insert : ℕ → ℕ → Bytes → ℕ → List Dirent → List Dirent
insert k id name dt [] = entry_at k id name dt ∷ []
insert k id name dt (e ∷ es) =
    if is_unused e then entry_at k id name dt ∷ es else e ∷ insert (suc k) id name dt es

add_entry_from : ℕ → ℕ → Bytes → ℕ → Option ℕ → List Dirent → List Dirent
add_entry_from k id name dt none es = es ++ entry_at (k + length es) id name dt ∷ []
add_entry_from k id name dt (some i) es = set es i (entry_at (k + i) id name dt)

add_entry-insert :
    (k id : ℕ) (name : Bytes) (dt : ℕ) (es : List Dirent)
    → add_entry_from k id name dt (first_gap es) es ≡ insert k id name dt es
unfolding add_entry_from first_gap insert
add_entry-insert k id name dt [] = ground arith
add_entry-insert k id name dt (e ∷ es) = ground (arith, add_entry-insert (suc k) id name dt es)

-- `RemoveChild` as one walk.
unfoldable pub remove : ℕ → Bytes → List Dirent → List Dirent
remove k n [] = []
remove k n (e ∷ es) = if bytes_eq e.name n then unused_at k ∷ es else e ∷ remove (suc k) n es

set-remove :
    (k i : ℕ) (n : Bytes) (es : List Dirent)
    → index_of n es ≡ some i
    → set es i (unused_at (k + i)) ≡ remove k n es
unfolding index_of remove
set-remove k i n [] h = cc
set-remove k zero n (e ∷ es) h = ground arith
set-remove k (suc i) n (e ∷ es) h = ground (arith, set-remove (suc k) i n es)

pub insert-offsets :
    (k id : ℕ) (n : Bytes) (dt : ℕ) (es : List Dirent)
    → OffsetsFrom k es
    → OffsetsFrom k (insert k id n dt es)
unfolding insert
insert-offsets k id n dt [] h = (refl, tt)
insert-offsets k id n dt (e ∷ es) h = ground (arith, insert-offsets (suc k) id n dt es)

pub remove-offsets :
    (k : ℕ) (n : Bytes) (es : List Dirent) → OffsetsFrom k es → OffsetsFrom k (remove k n es)
unfolding remove
remove-offsets k n [] h = tt
remove-offsets k n (e ∷ es) h = ground (arith, remove-offsets (suc k) n es)

pub insert-blank :
    (k id : ℕ) (n : Bytes) (dt : ℕ) (es : List Dirent)
    → n ≢ []
    → dt ≢ dt_unknown
    → UnusedBlank es
    → UnusedBlank (insert k id n dt es)
unfolding insert
insert-blank k id n dt [] ne used h = ground (arith, bytes_eq_iff n [])
insert-blank k id n dt (e ∷ es) ne used h =
    ground (arith, bytes_eq_iff n [], insert-blank (suc k) id n dt es ne used)

pub remove-blank :
    (k : ℕ) (n : Bytes) (es : List Dirent) → UnusedBlank es → UnusedBlank (remove k n es)
unfolding remove bytes_eq
remove-blank k n [] h = tt
remove-blank k n (e ∷ es) h = ground (arith, remove-blank (suc k) n es)

pub has_used-lookup : (n : Bytes) (es : List Dirent) → lookup n es ≡ none → has_used n es ≡ false
unfolding lookup has_used
has_used-lookup n [] h = refl
has_used-lookup n (e ∷ es) h = ground (arith, has_used-lookup n es)

pub lookup-has_used :
    (n : Bytes) (es : List Dirent)
    → n ≢ []
    → UnusedBlank es
    → has_used n es ≡ false
    → lookup n es ≡ none
unfolding lookup has_used
lookup-has_used n [] ne b h = refl
lookup-has_used n (e ∷ es) ne b h =
    ground (arith, lookup-has_used n es ne, bytes_eq_iff e.name n, bytes_eq_iff e.name [])

has_used-insert :
    (m : Bytes) (k id : ℕ) (n : Bytes) (dt : ℕ) (es : List Dirent)
    → has_used m es ≡ false
    → bytes_eq n m ≡ false
    → has_used m (insert k id n dt es) ≡ false
unfolding insert has_used
has_used-insert m k id n dt [] h ne = ground arith
has_used-insert m k id n dt (e ∷ es) h ne = ground (arith, has_used-insert m (suc k) id n dt es)

pub insert_unique :
    (k id : ℕ) (n : Bytes) (dt : ℕ) (es : List Dirent)
    → has_used n es ≡ false
    → UniqueNames es
    → UniqueNames (insert k id n dt es)
unfolding insert has_used
insert_unique k id n dt [] h u = ground arith
insert_unique k id n dt (e ∷ es) h u = ground (
  arith,
  insert_unique (suc k) id n dt es,
  has_used-insert e.name (suc k) id n dt es,
  bytes_eq_iff n e.name,
  bytes_eq_iff e.name n,
)

has_used-remove :
    (m : Bytes) (k : ℕ) (n : Bytes) (es : List Dirent)
    → has_used m es ≡ false
    → has_used m (remove k n es) ≡ false
unfolding remove has_used
has_used-remove m k n [] h = refl
has_used-remove m k n (e ∷ es) h = ground (arith, has_used-remove m (suc k) n es)

pub remove_unique :
    (k : ℕ) (n : Bytes) (es : List Dirent) → UniqueNames es → UniqueNames (remove k n es)
unfolding remove
remove_unique k n [] u = tt
remove_unique k n (e ∷ es) u =
    ground (arith, remove_unique (suc k) n es, has_used-remove e.name (suc k) n es)

pub lookup-insert :
    (m : Bytes) (k id : ℕ) (n : Bytes) (dt : ℕ) (es : List Dirent)
    → m ≢ []
    → UnusedBlank es
    → lookup n es ≡ none
    → lookup m (insert k id n dt es) ≡ (if bytes_eq n m then some (id, dt) else lookup m es)
unfolding insert lookup
lookup-insert m k id n dt [] ne b h = refl
lookup-insert m k id n dt (e ∷ es) ne b h = ground (
  arith,
  lookup-insert m (suc k) id n dt es ne,
  bytes_eq_iff e.name [],
  bytes_eq_iff e.name m,
  bytes_eq_iff n m,
  bytes_eq_iff e.name n,
)

pub lookup-remove :
    (m : Bytes) (k : ℕ) (n : Bytes) (es : List Dirent)
    → m ≢ []
    → n ≢ []
    → UnusedBlank es
    → UniqueNames es
    → lookup m (remove k n es) ≡ (if bytes_eq n m then none else lookup m es)
unfolding remove lookup bytes_eq
lookup-remove m k n [] ne nn b u = ground arith
lookup-remove m k n (e ∷ es) ne nn b u = ground (
  arith,
  lookup-remove m (suc k) n es ne nn,
  lookup-has_used m es ne b.1,
  bytes_eq_iff e.name [],
  bytes_eq_iff [] m,
  bytes_eq_iff e.name m,
  bytes_eq_iff n m,
  bytes_eq_iff e.name n,
)

pub count_used-insert :
    (k id : ℕ) (n : Bytes) (dt : ℕ) (es : List Dirent)
    → dt ≢ dt_unknown
    → count_used (insert k id n dt es) ≡ suc (count_used es)
unfolding insert count_used
count_used-insert k id n dt [] h = ground arith
count_used-insert k id n dt (e ∷ es) h = ground (arith, count_used-insert (suc k) id n dt es)

pub count_used-remove :
    (k : ℕ) (n : Bytes) (es : List Dirent)
    → n ≢ []
    → UnusedBlank es
    → lookup n es ≢ none
    → suc (count_used (remove k n es)) ≡ count_used es
unfolding remove count_used lookup
count_used-remove k n [] ne b h = absurd (h refl)
count_used-remove k n (e ∷ es) ne b h =
    ground
      (arith, count_used-remove (suc k) n es ne b.1, bytes_eq_iff e.name n, bytes_eq_iff e.name [])

pub add_entry_lem :
    (id : ℕ) (n : Bytes) (dt : ℕ) (es : List Dirent) → add_entry id n dt es ≡ insert 0 id n dt es
unfolding add_entry add_entry_from
add_entry_lem id n dt es = ground (arith, add_entry-insert 0 id n dt es)

-- The directory after `RemoveChild`.
abbrev pub without : ℕ → Bytes → Inode → Inode
without now n x = record x {
  attrs = record x.attrs { mtime = now };
  entries = remove 0 n x.entries;
}

set-remove_zero :
    (i : ℕ) (n : Bytes) (es : List Dirent)
    → index_of n es ≡ some i
    → set es i (unused_at i) ≡ remove 0 n es
set-remove_zero i n es h =
    ap (λ k. set es i (unused_at k)) {y = 0 + i} (omega arith) ∙ set-remove 0 i n es h

-- `RemoveChild` on a directory panics exactly if no entry has the name.
pub remove_child_lem :
    (now : ℕ) (n : Bytes) (x : Inode)
    → is_dir x ≡ true
    → ((lookup n x.entries ≡ none) × (remove_child now n x ≡ panic))
      ⊎ ((lookup n x.entries ≢ none) × (remove_child now n x ≡ done (without now n x)))
unfolding remove_child find_child child_at
remove_child_lem now n x d = elim (Option-cases (index_of n x.entries)) [
  | inl missing ↦ ground (arith, index_of-lookup n x.entries)
  | inr (i, found) ↦ ground (arith, index_of-lookup n x.entries, set-remove_zero i n x.entries)
]
