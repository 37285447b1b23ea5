-- ===== src/Memfs/Store.antt =====
-- samples/memfs/memfs.go: the state of the file system and its helpers. An inode is reached by its
-- ID, its index in `inodes`, and each stands at one index, so that a write through a pointer is a
-- write at the ID. A handler may panic, return an error with what it changed, or succeed.
pub mod Access
pub mod Allocation
use fuse.Base.{
  ℕ,
  suc,
  ◌+◌,
  ◌-◌,
  Bool,
  true,
  false,
  Option,
  none,
  some,
  List,
  [],
  ◌∷◌,
  ◌++◌,
  length,
  get_elem?,
  set,
  take,
  replicate,
  Bytes.{Bytes},
  Outcome,
  done,
  panic,
  ltb,
  ◌==◌,
  if◌then◌else◌,
}
use fuse.Errors.{Errno}
pub use fuse.Fuseops.Types.{zero_attributes}
use fuse.Memfs.Inode.{Attributes, Inode, mode_dir, new_inode}

abbrev pub root_inode_id : ℕ
root_inode_id = 1

pub record MemFs : Type 0 where
  pub uid : ℕ
  pub gid : ℕ
  pub inodes : List (Option Inode)
  pub free_inodes : List ℕ
  pub read_file_callback : Option ℕ
  pub write_file_callback : Option ℕ

pub data Result (A : Type 0) : Type 0 where
  ok : A → Result A
  err : Errno → Result A

abbrev pub M : Type 0 → Type 0
M A = MemFs → Outcome (Result A × MemFs)

infixl 5 ◌>>=◌ ◌>>◌
abbrev pub ◌>>=◌ : {A B : Type 0} → M A → (A → M B) → M B
◌>>=◌ m f fs = elim (m fs) [
  | panic ↦ panic
  | done (ok a, fs') ↦ f a fs'
  | done (err e, fs') ↦ done (err e, fs')
]

abbrev pub ◌>>◌ : {A B : Type 0} → M A → M B → M B
m >> k = m >>= λ _. k

abbrev pub pure : {A : Type 0} → A → M A
pure a fs = done (ok a, fs)

abbrev pub raise : {A : Type 0} → Errno → M A
raise e fs = done (err e, fs)

abbrev pub raise_if : Bool → Errno → M (Unit {0})
raise_if true e fs = done (err e, fs)
raise_if false e fs = done (ok tt, fs)

abbrev pub or_raise : {A : Type 0} → Option A → Errno → M A
or_raise none e = raise e
or_raise (some a) e = pure a

-- Code on an inode, which may panic.
abbrev pub lift : {A : Type 0} → Outcome A → M A
lift panic fs = panic
lift (done a) fs = done (ok a, fs)

abbrev pub gets : {A : Type 0} → (MemFs → A) → M A
gets f fs = done (ok (f fs), fs)

-- The inode that the array holds at an ID: `none` out of range, and `some none` for `nil`.
abbrev pub live : Option (Option Inode) → Outcome Inode
live none = panic
live (some none) = panic
live (some (some x)) = done x

unfoldable pub get_inode_or_die : ℕ → M Inode
get_inode_or_die id fs = lift (live (get_elem? fs.inodes id)) fs

abbrev pub put_inode : ℕ → Inode → MemFs → MemFs
put_inode id x fs = record fs { inodes = set fs.inodes id (some x) }

-- A method call on the inode with an ID.
unfoldable pub modify_inode : ℕ → (Inode → Outcome Inode) → M (Unit {0})
unfolding get_inode_or_die
modify_inode id f = do
  x ← get_inode_or_die id
  x' ← lift (f x)
  λ fs. done (ok tt, put_inode id x' fs)

-- The last free ID, or a new one; `inodes[id] = inode` panics out of range.
unfoldable pub allocate_inode : ℕ → Attributes → Bytes → M ℕ
allocate_inode now attrs name fs =
    let x = new_inode now attrs name in
    let num_free = length fs.free_inodes in
    if num_free == 0
    then done (ok (length fs.inodes), record fs { inodes = fs.inodes ++ some x ∷ [] })
    else elim (get_elem? fs.free_inodes (num_free - 1)) [
      | none ↦ panic
      | some id ↦
          if ltb id (length fs.inodes)
          then done (
            ok id,
            record fs {
              free_inodes = take (num_free - 1) fs.free_inodes;
              inodes = set fs.inodes id (some x);
            },
          )
          else panic
    ]

unfoldable pub deallocate_inode : ℕ → M (Unit {0})
deallocate_inode id fs =
    if ltb id (length fs.inodes)
    then done (
      ok tt,
      record fs { free_inodes = fs.free_inodes ++ id ∷ []; inodes = set fs.inodes id none },
    )
    else panic

-- `NewMemFSWithCallbacks`; the array holds the reserved ID 0 and the root.
unfoldable pub new_mem_fs : ℕ → ℕ → ℕ → Option ℕ → Option ℕ → MemFs
new_mem_fs now uid gid read_callback write_callback =
    let attrs = record zero_attributes { mode = 448 + mode_dir; uid = uid; gid = gid } in
    record {
      uid = uid;
      gid = gid;
      inodes = none ∷ some (new_inode now attrs []) ∷ [];
      free_inodes = [];
      read_file_callback = read_callback;
      write_file_callback = write_callback;
    }
