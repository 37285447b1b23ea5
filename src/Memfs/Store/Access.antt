-- ===== src/Memfs/Store/Access.antt =====
-- What the handlers' steps do to a state in which the inodes they reach exist.
use fuse.Base.{ℕ, zero, suc, ◌≡◌, refl, ap, ◌∙◌, some, List, [], ◌∷◌, get_elem?, set, Outcome, done}
use fuse.Memfs.Inode.{Inode}
use fuse.Memfs.Store.{MemFs, M, ok, ◌>>=◌, lift, live, get_inode_or_die, put_inode, modify_inode}

-- The file system has the inode under the ID.
abbrev pub Has : MemFs → ℕ → Inode → Type 0
Has fs id x = get_elem? fs.inodes id ≡ some (some x)

pub get_elem?-set_found :
    {A : Type 0} (xs : List A) (i : ℕ) (a b : A)
    → get_elem? xs i ≡ some b
    → get_elem? (set xs i a) i ≡ some a
get_elem?-set_found [] i a b h = cc
get_elem?-set_found (x ∷ xs) zero a b h = refl
get_elem?-set_found (x ∷ xs) (suc i) a b h = get_elem?-set_found xs i a b h

pub put_inode_same :
    (id : ℕ) (x y : Inode) (fs : MemFs) → Has fs id x → Has (put_inode id y fs) id y
put_inode_same id x y fs h = get_elem?-set_found fs.inodes id (some y) (some x) h

pub bind_done :
    {A B : Type 0} (m : M A) (f : A → M B) (fs fs' : MemFs) (a : A)
    → m fs ≡ done (ok a, fs')
    → (m >>= f) fs ≡ f a fs'
bind_done m f fs fs' a h = rw (h, ◌>>=◌) refl

pub get_inode_or_die_lem :
    (id : ℕ) (x : Inode) (fs : MemFs) → Has fs id x → get_inode_or_die id fs ≡ done (ok x, fs)
unfolding get_inode_or_die
get_inode_or_die_lem id x fs h = ap (λ o. lift (live o) fs) h

pub modify_inode_lem :
    (id : ℕ) (f : Inode → Outcome Inode) (x x' : Inode) (fs : MemFs)
    → Has fs id x
    → f x ≡ done x'
    → modify_inode id f fs ≡ done (ok tt, put_inode id x' fs)
unfolding modify_inode
modify_inode_lem id f x x' fs h ran =
    bind_done (get_inode_or_die id) (λ y. lift (f y) >>= λ y'. λ s. done (ok tt, put_inode id y' s))
      fs fs x (get_inode_or_die_lem id x fs h)
    ∙ ap (λ o. (lift o >>= λ y'. λ s. done (ok tt, put_inode id y' s)) fs) ran
