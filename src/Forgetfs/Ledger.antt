-- ===== src/Forgetfs/Ledger.antt =====
-- samples/forgetfs/forget_fs.go: the methods in any order, against the kernel's ledger, which keeps for
-- each inode the lookups that it has not forgotten.
use fuse.Base.{
  ℕ,
  ◌+◌,
  ◌-◌,
  ◌<◌,
  ◌≤◌,
  ◌≡◌,
  refl,
  sym,
  subst,
  Bool,
  true,
  false,
  ◌&&◌,
  not,
  ◌⊎◌,
  inl,
  inr,
  Option,
  none,
  some,
  List,
  [],
  ◌∷◌,
  All,
  Bytes.{Bytes},
  Outcome,
  done,
  panic,
  ◌>>=◌,
  Word.{two64},
  ltb,
  leb,
  ◌==◌,
  if◌then◌else◌,
  Bool-cases,
  arith,
}
use fuse.Forgetfs.{
  Inode, ForgetFs, find, assign, forgotten, unless_forgotten, find_inode_by_id, child_of,
  look_up_inode, get_inode_attributes, forget_inode, mk_dir, create_file, open_file, open_dir,
}

pub record Ledger : Type 0 where
  pub held : ℕ → ℕ
  pub next : ℕ

pub data Event : Type 0 where
  look_up : ℕ → Bytes → Event
  attributes : ℕ → Event
  forget : ℕ → ℕ → Event
  make_dir make_file : ℕ → Event
  open_it open_listing : ℕ → Event

abbrev pub step : Event → ForgetFs → Outcome ForgetFs
step (look_up parent name) fs = look_up_inode parent name fs >>= λ r. done r.1
step (attributes id) fs = get_inode_attributes id fs >>= λ r. done r.1
step (forget id n) fs = forget_inode id n fs
step (make_dir parent) fs = mk_dir parent fs >>= λ r. done r.1
step (make_file parent) fs = create_file parent fs >>= λ r. done r.1
step (open_it id) fs = open_file id fs
step (open_listing id) fs = open_dir id fs

unfoldable pub run : List Event → ForgetFs → Outcome ForgetFs
run [] fs = done fs
run (e ∷ es) fs = step e fs >>= run es

-- The protocol: only inodes with lookups are named, and no more is forgotten than was looked up.
abbrev pub is_held : ℕ → Ledger → Bool
is_held id l = not (l.held id == 0)

abbrev pub child_held : Option ℕ → Ledger → Bool
child_held none l = true
child_held (some id) l = is_held id l

abbrev pub allowed : Event → Ledger → Bool
allowed (look_up parent name) l = is_held parent l && child_held (child_of parent name) l
allowed (attributes id) l = is_held id l
allowed (forget id n) l = is_held id l && leb n (l.held id)
allowed (make_dir parent) l = is_held parent l
allowed (make_file parent) l = is_held parent l
allowed (open_it id) l = is_held id l
allowed (open_listing id) l = is_held id l

abbrev pub holding : ℕ → ℕ → Ledger → Ledger
holding id n l = record l { held = λ j. if j == id then n else l.held j }

abbrev pub child_after : Option ℕ → Ledger → Ledger
child_after none l = l
child_after (some id) l = holding id (l.held id + 1) l

abbrev pub minted : Ledger → Ledger
minted l = record (holding l.next 1 l) { next = l.next + 1 }

abbrev pub after : Event → Ledger → Ledger
after (look_up parent name) l = child_after (child_of parent name) l
after (attributes id) l = l
after (forget id n) l = holding id (l.held id - n) l
after (make_dir parent) l = minted l
after (make_file parent) l = minted l
after (open_it id) l = l
after (open_listing id) l = l

unfoldable pub legal : List Event → Ledger → Bool
legal [] l = true
legal (e ∷ es) l = allowed e l && legal es (after e l)

unfoldable pub final : List Event → Ledger → Ledger
final [] l = l
final (e ∷ es) l = final es (after e l)

abbrev pub Tracks : Option Inode → ℕ → Type 0
Tracks none h = h ≡ 0
Tracks (some x) h = (x.lookup_count ≡ h) × (x.looked_up ≡ true)

-- The counts are the lookups held, and all IDs are below the next one.
pub record Agrees (fs : ForgetFs) (l : Ledger) : Type 0 where
  pub counts : (j : ℕ) → Tracks (find j fs.inodes) (l.held j)
  pub keys : All (λ e. e.0 < l.next) fs.inodes
  pub same_next : fs.next_inode_id ≡ l.next

abbrev pub Ends : Bool → Ledger → Outcome ForgetFs → Type 0
Ends true l o = (fs : ForgetFs) × (o ≡ done fs) × Agrees fs l
Ends false l o = o ≡ panic

-- The counters have room for `n` more steps.
pub record Room (n : ℕ) (l : Ledger) : Type 0 where
  pub counts : (j : ℕ) → l.held j + n < two64
  pub ids : l.next + n < two64

pub find-assign :
    (j id : ℕ) (x : Inode) (l : List (ℕ × Inode))
    → find j (assign id x l) ≡ (if j == id then some x else find j l)
unfolding find assign
find-assign j id x [] = ground arith
find-assign j id x ((k, y) ∷ l) = ground (arith, find-assign j id x l)

pub keys-assign :
    (n id : ℕ) (x : Inode) (l : List (ℕ × Inode))
    → All (λ e. e.0 < n) l
    → id < n
    → All (λ e. e.0 < n) (assign id x l)
unfolding assign
keys-assign n id x [] keys h = (h, tt)
keys-assign n id x ((k, y) ∷ l) keys h = elim (Bool-cases (k == id)) [
  | inl is_k ↦ rw is_k (keys.0, keys.1)
  | inr other ↦ rw other (keys.0, keys-assign n id x l keys.1 h)
]

find-none : (n j : ℕ) (l : List (ℕ × Inode)) → All (λ e. e.0 < n) l → n ≤ j → find j l ≡ none
unfolding find
find-none n j [] keys h = refl
find-none n j ((k, x) ∷ l) keys h =
    let other : (k == j) ≡ false = ground (arith, keys.0) in rw other (find-none n j l keys.1 h)

-- An inode that is held has an ID below the next one.
pub held-below : (fs : ForgetFs) (l : Ledger) (id : ℕ) → Agrees fs l → 0 < l.held id → id < l.next
held-below fs l id a pos = elim (Bool-cases (ltb id l.next)) [
  | inl below ↦ ground arith
  | inr above ↦
      let free : 0 ≡ l.held id = sym (
        subst (λ o. Tracks o (l.held id)) (find-none l.next id fs.inodes a.keys (ground arith))
          (a.counts id)) in
      absurd (omega arith)
]

unless_forgotten_cases :
    (o : Option Inode) (h : ℕ)
    → Tracks o h
    → ((h ≡ 0) × (unless_forgotten o ≡ panic))
      ⊎ ((0 < h)
          × ((x : Inode) × (unless_forgotten o ≡ done x)
              × (x.lookup_count ≡ h)
              × (x.looked_up ≡ true)))
unfolding forgotten
unless_forgotten_cases none h t = inl (t, refl)
unless_forgotten_cases (some x) h t = elim (Bool-cases (x.lookup_count == 0)) [
  | inl zero_count ↦ inl (ground (arith, t.0), rw (t.1, zero_count) refl)
  | inr counted ↦ inr (ground (arith, t.0), (x, rw (t.1, counted) refl, t.0, t.1))
]

-- An inode is found exactly if it is held.
pub find_cases :
    (fs : ForgetFs) (l : Ledger) (id : ℕ)
    → Agrees fs l
    → ((is_held id l ≡ false) × (find_inode_by_id id fs ≡ panic))
      ⊎ ((is_held id l ≡ true)
          × (0 < l.held id)
          × ((x : Inode) × (find_inode_by_id id fs ≡ done x)
              × (x.lookup_count ≡ l.held id)
              × (x.looked_up ≡ true)))
unfolding find_inode_by_id
find_cases fs l id a = elim (unless_forgotten_cases (find id fs.inodes) (l.held id) (a.counts id)) [
  | inl (none_held, panics) ↦ inl (ground arith, panics)
  | inr (pos, found) ↦ inr (ground arith, pos, found)
]
