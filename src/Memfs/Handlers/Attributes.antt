-- ===== src/Memfs/Handlers/Attributes.antt =====
-- The handlers of attributes and extended attributes, and what becomes of their errors.
use fuse.Base.{
  ℕ,
  ◌+◌,
  ◌≤◌,
  ◌<◌,
  ◌≡◌,
  ◌≢◌,
  ◌⊎◌,
  inl,
  inr,
  refl,
  ap,
  ◌∙◌,
  true,
  false,
  Option,
  none,
  some,
  length,
  is_some,
  Bool,
  Bool-cases,
  ◌==◌,
  Bytes.{Bytes, bytes_eq_refl},
  Word.{two63},
  done,
  leb-eq_true,
  ==-eq_false,
  arith,
}
use fuse.Errors.{Errno, ebadf, eexist, enoattr}
use fuse.Memfs.Inode.{Inode, is_file, set_attributes}
use fuse.Memfs.Inode.Invariant.{IsValid}
use fuse.Memfs.Inode.Resize.{truncated, set_attributes_lem}
use fuse.Memfs.Xattr
use fuse.Memfs.Xattr.{lookup-insert}
use fuse.Memfs.Store.{MemFs, ok, err, ◌>>=◌, put_inode}
use fuse.Memfs.Store.Access.{Has, get_inode_or_die_lem, modify_inode_lem, put_inode_same}
use fuse.Memfs.Handlers.Names.{year}
use fuse.Memfs.Handlers.Files.{
  flags_error, with_xattr, set_xattr_helper, set_xattr, get_xattr, set_inode_attributes,
}

helper_ok :
    (x : Inode) (name value : Bytes) (flags : ℕ)
    → flags_error flags (is_some (Xattr.lookup name x.xattrs)) ≡ none
    → set_xattr_helper x name value flags ≡ (none, with_xattr name value x)
unfolding set_xattr_helper
helper_ok x name value flags same = rw (same, set_xattr_helper) refl

helper_err :
    (x : Inode) (name value : Bytes) (flags : ℕ) (e : Errno)
    → flags_error flags (is_some (Xattr.lookup name x.xattrs)) ≡ some e
    → set_xattr_helper x name value flags ≡ (some e, x)
unfolding set_xattr_helper
helper_err x name value flags e same = rw (same, set_xattr_helper) refl

-- What `set_xattr` does with the result of the helper.
set_xattr_ok :
    (id flags : ℕ) (name value : Bytes) (x x' : Inode) (fs : MemFs)
    → Has fs id x
    → set_xattr_helper x name value flags ≡ (none, x')
    → set_xattr id name value flags fs ≡ done (ok tt, put_inode id x' fs)
unfolding set_xattr
set_xattr_ok id flags name value x x' fs h same =
    rw (get_inode_or_die_lem id x fs h, ◌>>=◌)
      (rw same (ap (λ r. done (ok tt, put_inode id r.1 fs)) same))

set_xattr_err :
    (id flags : ℕ) (name value : Bytes) (x : Inode) (fs : MemFs) (e : Errno)
    → Has fs id x
    → set_xattr_helper x name value flags ≡ (some e, x)
    → set_xattr id name value flags fs ≡ done (err e, fs)
unfolding set_xattr
set_xattr_err id flags name value x fs e h same =
    rw (get_inode_or_die_lem id x fs h, ◌>>=◌) (rw same refl)

get_xattr_run :
    (id dst_len : ℕ) (name value : Bytes) (x : Inode) (fs : MemFs)
    → Has fs id x
    → Xattr.lookup name x.xattrs ≡ some value
    → length value ≤ dst_len
    → get_xattr id name dst_len fs ≡ done (ok (length value, value), fs)
unfolding get_xattr
get_xattr_run id dst_len name value x fs h found fits =
    rw (get_inode_or_die_lem id x fs h, ◌>>=◌)
      (rw (found, leb-eq_true (length value) dst_len fits) refl)

-- The flags that `SetXattr` refuses.
flags_error_lem :
    (flags : ℕ) (exists : Bool)
    → ((flags ≡ 1) × (exists ≡ true) × (flags_error flags exists ≡ some eexist))
      ⊎ (((flags ≡ 2) × (exists ≡ false) × (flags_error flags exists ≡ some enoattr))
          ⊎ ((flags ≢ 1 ⊎ (exists ≡ false))
              × (flags ≢ 2 ⊎ (exists ≡ true))
              × (flags_error flags exists ≡ none)))
flags_error_lem flags true = elim (Bool-cases (flags == 1)) [
  | inl e ↦ inl (ground arith, refl, rw e refl)
  | inr e ↦ inr (inr (inl (λ q. ground arith), inr refl, rw e (ground arith)))
]
flags_error_lem flags false = elim (Bool-cases (flags == 2)) [
  | inl e ↦ inr (inl (ground arith, refl, ground arith))
  | inr e ↦ inr (inr (inr refl, inl (λ q. ground arith), ground arith))
]

-- `SetXattr` of an inode that exists, by the flags 1 (XATTR_CREATE) and 2 (XATTR_REPLACE): with 1
-- and a name that has a value it answers EEXIST and changes nothing; with 2 and a name that has
-- none it answers ENOATTR and changes nothing; in every other case it succeeds, and a `GetXattr` of
-- the name with room for the value then gives the value and its length.
pub get_xattr-set_xattr :
    (id flags dst_len : ℕ) (name value : Bytes) (x : Inode) (fs : MemFs)
    → Has fs id x
    → length value ≤ dst_len
    → let exists = is_some (Xattr.lookup name x.xattrs) in
      ((flags ≡ 1) × (exists ≡ true) × (set_xattr id name value flags fs ≡ done (err eexist, fs)))
      ⊎ (((flags ≡ 2)
            × (exists ≡ false)
            × (set_xattr id name value flags fs ≡ done (err enoattr, fs)))
          ⊎ ((flags ≢ 1 ⊎ (exists ≡ false))
              × (flags ≢ 2 ⊎ (exists ≡ true))
              × ((fs' : MemFs) × (set_xattr id name value flags fs ≡ done (ok tt, fs'))
                  × (get_xattr id name dst_len fs' ≡ done (ok (length value, value), fs')))))
get_xattr-set_xattr id flags dst_len name value x fs h fits =
    let x' : Inode = with_xattr name value x in
    elim (flags_error_lem flags (is_some (Xattr.lookup name x.xattrs))) [
      | inl (create, exists, same) ↦ inl (
        create,
        exists,
        set_xattr_err id flags name value x fs eexist h (helper_err x name value flags eexist same),
      )
      | inr (inl (replace, missing, same)) ↦ inr (
          inl (
            replace,
            missing,
            set_xattr_err id flags name value x fs enoattr h
                (helper_err x name value flags enoattr same),
          ))
      | inr (inr (no_create, no_replace, same)) ↦ inr (
          inr (
            no_create,
            no_replace,
            (
              put_inode id x' fs,
              set_xattr_ok id flags name value x x' fs h (helper_ok x name value flags same),
              get_xattr_run id dst_len name value x' (put_inode id x' fs)
                  (put_inode_same id x x' fs h)
                  (lookup-insert name name value x.xattrs ∙ rw (bytes_eq_refl name) refl) fits,
            ),
          ))
    ]

-- For a valid file of less than 2^63 bytes, a truncation to a size below 2^63 and other than 0,
-- without a handle, answers EBADF; all the same the file gets the new size, and stays valid.
pub set_inode_attributes_ebadf :
    (clock : ℕ → ℕ) (id size : ℕ) (mode mtime : Option ℕ) (x : Inode) (fs : MemFs)
    → Has fs id x
    → IsValid x
    → is_file x ≡ true
    → length x.contents < two63
    → size < two63
    → size ≢ 0
    → (x' : Inode) × (set_inode_attributes clock id (some size) mode mtime false fs
        ≡ done (ok (some ebadf, x'.attrs, clock 1 + year), put_inode id x' fs))
      × IsValid x'
      × (x'.contents ≡ truncated (some size) x.contents)
unfolding set_inode_attributes
set_inode_attributes_ebadf clock id size mode mtime x fs h v f small fits nonzero =
    let (x', ran, valid, contents, _, _, _) =
      set_attributes_lem (clock 0) (some size) mode mtime x v f small (λ s e. ground arith) in
    (
      x',
      rw
          (
            modify_inode_lem id (set_attributes (clock 0) (some size) mode mtime) x x' fs h ran,
            ◌>>=◌,
          )
          (rw (get_inode_or_die_lem id x' (put_inode id x' fs) (put_inode_same id x x' fs h), ◌>>=◌)
            (rw (==-eq_false size 0 nonzero) refl)),
      valid,
      contents,
    )
