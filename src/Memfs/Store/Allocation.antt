-- ===== src/Memfs/Store/Allocation.antt =====
-- `allocateInode`: the ID that a new inode gets.
use fuse.Base.{
  ℕ,
  zero,
  suc,
  ◌-◌,
  ◌<◌,
  ◌≡◌,
  ◌⊎◌,
  inl,
  inr,
  refl,
  sym,
  ap,
  ◌∙◌,
  true,
  false,
  Option,
  none,
  some,
  List,
  [],
  ◌∷◌,
  ◌++◌,
  length,
  get_elem?,
  get_elem?-set_ne,
  get_elem?-append_length,
  set,
  take,
  All,
  Bytes.{Bytes},
  done,
  ◌==◌,
  ltb,
  ltb-eq_true,
  arith,
}
use fuse.Memfs.Inode.{Attributes, Inode, new_inode}
use fuse.Memfs.Store.{MemFs, ok, allocate_inode}
use fuse.Memfs.Store.Access.{Has, get_elem?-set_found}

-- The free IDs are those of slots that hold no inode.
abbrev pub FreeAreNil : MemFs → Type 0
FreeAreNil fs = All (λ id. get_elem? fs.inodes id ≡ some none) fs.free_inodes

-- What an allocation does: the ID had no inode and has the new one, and every other ID has what it
-- had before.
abbrev pub Allocated : MemFs → Inode → ℕ → MemFs → Type 0
Allocated fs x id fs' =
    ((get_elem? fs.inodes id ≡ none) ⊎ (get_elem? fs.inodes id ≡ some none))
    × Has fs' id x
    × ((j : ℕ) (y : Inode) → Has fs j y → Has fs' j y)

last_free :
    {P : ℕ → Type 0} (l : List ℕ)
    → All P l
    → (length l ≡ 0) ⊎ ((id : ℕ) × (get_elem? l (length l - 1) ≡ some id) × P id)
last_free [] h = inl refl
last_free (a ∷ []) (p, _) = inr (a, refl, p)
last_free (a ∷ b ∷ l) (p, h) = elim (last_free (b ∷ l) h) [
  | inl empty ↦ inl (omega arith)
  | inr (id, last, q) ↦ inr (
    id,
    ap (get_elem? (a ∷ b ∷ l)) {x = length (a ∷ b ∷ l) - 1} {y = suc (length (b ∷ l) - 1)}
          (omega arith)
        ∙ last,
    q,
  )
]

get_elem?-lt : {A : Type 0} (xs : List A) (i : ℕ) (a : A) → get_elem? xs i ≡ some a → i < length xs
get_elem?-lt [] i a h = cc
get_elem?-lt (x ∷ xs) zero a h = omega arith
get_elem?-lt (x ∷ xs) (suc i) a h = omega (arith, get_elem?-lt xs i a h)

get_elem?-length : {A : Type 0} (xs : List A) → get_elem? xs (length xs) ≡ none
get_elem?-length [] = refl
get_elem?-length (x ∷ xs) = get_elem?-length xs

get_elem?-append :
    {A : Type 0} (xs ys : List A) (i : ℕ) (a : A)
    → get_elem? xs i ≡ some a
    → get_elem? (xs ++ ys) i ≡ some a
get_elem?-append [] ys i a h = cc
get_elem?-append (x ∷ xs) ys zero a h = h
get_elem?-append (x ∷ xs) ys (suc i) a h = get_elem?-append xs ys i a h

nil_not_live :
    (fs : MemFs) (id j : ℕ) (y : Inode)
    → id ≡ j
    → get_elem? fs.inodes id ≡ some none
    → Has fs j y
    → ⊥
nil_not_live fs id j y same blank there =
    let clash : ◌≡◌ {A = Option (Option Inode)} (some none) (some (some y)) =
      sym blank ∙ ap (get_elem? fs.inodes) same ∙ there in
    cc

-- If the free IDs have no inode, `allocateInode` does not panic; the new inode gets an ID that no
-- inode had, and every inode that there was is still under its ID.
pub allocate_inode-Allocated :
    (now : ℕ) (attrs : Attributes) (name : Bytes) (fs : MemFs)
    → FreeAreNil fs
    → (id : ℕ) × (fs' : MemFs) × (allocate_inode now attrs name fs ≡ done (ok id, fs'))
      × Allocated fs (new_inode now attrs name) id fs'
unfolding allocate_inode
allocate_inode-Allocated now attrs name fs free =
    let x : Option Inode = some (new_inode now attrs name) in
    elim (last_free fs.free_inodes free) [
      | inl nothing ↦ (
        length fs.inodes,
        record fs { inodes = fs.inodes ++ x ∷ [] },
        rw nothing refl,
        (
          inl (get_elem?-length fs.inodes),
          get_elem?-append_length fs.inodes x [],
          λ j y there. get_elem?-append fs.inodes (x ∷ []) j (some y) there,
        ),
      )
      | inr (id, last, blank) ↦
          let used : (length fs.free_inodes == 0) ≡ false =
            ground (arith, get_elem?-lt fs.free_inodes (length fs.free_inodes - 1) id last) in
          let fits : ltb id (length fs.inodes) ≡ true =
            ltb-eq_true id (length fs.inodes) (get_elem?-lt fs.inodes id none blank) in
          (
            id,
            record fs {
              free_inodes = take (length fs.free_inodes - 1) fs.free_inodes;
              inodes = set fs.inodes id x;
            },
            rw (used, last, fits) refl,
            (
              inr blank,
              get_elem?-set_found fs.inodes id x none blank,
              λ j y there.
                  get_elem?-set_ne fs.inodes id j x
                    (λ same. nil_not_live fs id j y same blank there)
                  ∙ there,
            ),
          )
    ]
