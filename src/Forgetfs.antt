-- ===== src/Forgetfs.antt =====
-- samples/forgetfs/forget_fs.go: a file system that counts the lookups of its inodes. The map of inodes
-- is an association list; the lock is held for a whole method, so that a method is one step.
pub mod Ledger
pub mod Runs
pub mod Ending
mod Tests
use fuse.Base.{
  ℕ,
  ◌+◌,
  ◌-◌,
  Bool,
  true,
  false,
  ◌&&◌,
  not,
  Option,
  none,
  some,
  List,
  [],
  ◌∷◌,
  Bytes.{Bytes, bytes_eq},
  Outcome,
  done,
  panic,
  ◌>>=◌,
  ◌>>◌,
  Word.{u64},
  ltb,
  ◌==◌,
  if◌then◌else◌,
}
use fuse.Fuseops.Types.{Attributes, zero_attributes}
use fuse.Conversions.{mode_dir}

pub record Inode : Type 0 where
  pub attributes : Attributes
  pub lookup_count : ℕ  -- uint64
  pub looked_up : Bool

pub record ForgetFs : Type 0 where
  pub inodes : List (ℕ × Inode)
  pub next_inode_id : ℕ

abbrev pub root_id : ℕ
root_id = 1

abbrev pub foo_id : ℕ
foo_id = 2

abbrev pub bar_id : ℕ
bar_id = 3

abbrev pub next_id : ℕ
next_id = 4

-- `m[id]` and `m[id] = x`.
unfoldable pub find : ℕ → List (ℕ × Inode) → Option Inode
find id [] = none
find id ((j, x) ∷ l) = let rest = find id l in if j == id then some x else rest

unfoldable pub assign : ℕ → Inode → List (ℕ × Inode) → List (ℕ × Inode)
assign id x [] = (id, x) ∷ []
assign id x ((j, y) ∷ l) = let rest = assign id x l in if j == id then (j, x) ∷ l else (j, y) ∷ rest

unfoldable pub forgotten : Inode → Bool
forgotten x = x.looked_up && x.lookup_count == 0

unfoldable pub increment_lookup_count : Inode → Inode
increment_lookup_count x = record x { lookup_count = u64 (x.lookup_count + 1); looked_up = true }

unfoldable pub decrement_lookup_count : ℕ → Inode → Outcome Inode
decrement_lookup_count n x =
    if ltb x.lookup_count n then panic else done (record x { lookup_count = x.lookup_count - n })

unfoldable pub destroy_inode : Inode → Outcome Inode
unfolding decrement_lookup_count
destroy_inode x = decrement_lookup_count x.lookup_count x

-- A new inode, with permissions 0777 and the bits of its type.
abbrev pub fresh : ℕ → ℕ → Inode
fresh nlink type = record {
  attributes = record zero_attributes { nlink = nlink; mode = 511 + type };
  lookup_count = 0;
  looked_up = false;
}

unfoldable pub new_forget_fs : ForgetFs
unfolding increment_lookup_count
new_forget_fs = record {
  inodes =
      (root_id, increment_lookup_count (fresh 1 mode_dir))
      ∷ (foo_id, increment_lookup_count (fresh 1 0))
      ∷ (bar_id, increment_lookup_count (fresh 1 mode_dir))
      ∷ [];
  next_inode_id = next_id;
}

unfoldable pub check_keys : ℕ → List (ℕ × Inode) → Outcome (Unit {0})
check_keys next [] = done tt
check_keys next ((k, x) ∷ l) =
    let rest = check_keys next l in if not (ltb k next) then panic else rest

unfoldable pub check_invariants : ForgetFs → Outcome (Unit {0})
unfolding check_keys
check_invariants fs = check_keys fs.next_inode_id fs.inodes

unfoldable pub check_counts : List (ℕ × Inode) → Outcome (Unit {0})
check_counts [] = done tt
check_counts ((k, x) ∷ l) =
    let rest = check_counts l in if not (x.lookup_count == 0) then panic else rest

unfoldable pub check : ForgetFs → Outcome (Unit {0})
unfolding check_counts
check fs = check_counts fs.inodes

abbrev pub unless_forgotten : Option Inode → Outcome Inode
unless_forgotten none = panic
unless_forgotten (some x) = if forgotten x then panic else done x

unfoldable pub find_inode_by_id : ℕ → ForgetFs → Outcome Inode
unfolding find forgotten
find_inode_by_id id fs = unless_forgotten (find id fs.inodes)

abbrev pub put_inode : ℕ → Inode → ForgetFs → ForgetFs
put_inode id x fs = record fs { inodes = assign id x fs.inodes }

-- "foo" and "bar" in the root.
unfoldable pub child_of : ℕ → Bytes → Option ℕ
unfolding bytes_eq
child_of parent name =
    if parent == root_id && bytes_eq name (102 ∷ 111 ∷ 111 ∷ [])
    then some foo_id
    else if parent == root_id && bytes_eq name (98 ∷ 97 ∷ 114 ∷ [])
    then some bar_id
    else none

-- An entry: the ID of a child and its attributes.
abbrev pub Entry : Type 0
Entry = ℕ × Attributes

abbrev pub look_up_child : Option ℕ → ForgetFs → Outcome (Option Entry × ForgetFs)
look_up_child none fs = done (none, fs)
look_up_child (some id) fs = do
  x ← find_inode_by_id id fs
  done (some (id, x.attributes), put_inode id (increment_lookup_count x) fs)

-- No entry stands for `ENOENT`.
unfoldable pub look_up_inode : ℕ → Bytes → ForgetFs → Outcome (Option Entry × ForgetFs)
unfolding find_inode_by_id child_of increment_lookup_count assign
look_up_inode parent name fs = find_inode_by_id parent fs >> look_up_child (child_of parent name) fs

unfoldable pub get_inode_attributes : ℕ → ForgetFs → Outcome (Attributes × ForgetFs)
unfolding find_inode_by_id
get_inode_attributes id fs = do x ← find_inode_by_id id fs; done (x.attributes, fs)

unfoldable pub forget_inode : ℕ → ℕ → ForgetFs → Outcome ForgetFs
unfolding find_inode_by_id decrement_lookup_count assign
forget_inode id n fs = do
  x ← find_inode_by_id id fs
  x' ← decrement_lookup_count n x
  done (put_inode id x' fs)

-- A child that appears to have been unlinked immediately.
abbrev pub mint : ℕ → ForgetFs → Entry × ForgetFs
mint type fs =
    let id = fs.next_inode_id in
    let child = increment_lookup_count (fresh 0 type) in
    (
      (id, child.attributes),
      record { inodes = assign id child fs.inodes; next_inode_id = u64 (id + 1) },
    )

unfoldable pub mk_dir : ℕ → ForgetFs → Outcome (Entry × ForgetFs)
unfolding find_inode_by_id increment_lookup_count assign
mk_dir parent fs = find_inode_by_id parent fs >> done (mint mode_dir fs)

unfoldable pub create_file : ℕ → ForgetFs → Outcome (Entry × ForgetFs)
unfolding find_inode_by_id increment_lookup_count assign
create_file parent fs = find_inode_by_id parent fs >> done (mint 0 fs)

unfoldable pub open_file : ℕ → ForgetFs → Outcome ForgetFs
unfolding find_inode_by_id
open_file id fs = find_inode_by_id id fs >> done fs

unfoldable pub open_dir : ℕ → ForgetFs → Outcome ForgetFs
unfolding find_inode_by_id
open_dir id fs = find_inode_by_id id fs >> done fs

unfoldable pub destroy_all : List (ℕ × Inode) → Outcome (List (ℕ × Inode))
unfolding destroy_inode
destroy_all [] = done []
destroy_all ((k, x) ∷ l) = do x' ← destroy_inode x; l' ← destroy_all l; done ((k, x') ∷ l')

unfoldable pub destroy : ForgetFs → Outcome ForgetFs
unfolding destroy_all
destroy fs = do l ← destroy_all fs.inodes; done (record fs { inodes = l })
