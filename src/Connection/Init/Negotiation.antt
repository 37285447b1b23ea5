-- ===== src/Connection/Init/Negotiation.antt =====
-- What a mount agrees on with the kernel.
use fuse.Base.{◌≡◌, ◌⊎◌, inl, inr, refl, true, false, Bool-cases, arith}
use fuse.Kernel.Protocol.{
  Protocol, lt, ge, has_getattr_flags, has_open_non_seekable, has_umask, has_invalidate,
}
use fuse.Connection.Init.{min_version, max_version, negotiate}

-- For a kernel of version 7.18 at least, the negotiated version is the kernel's or the library's
-- latest, and not newer than either; it is at least 7.18 too, and has the flags of
-- `GetattrRequest`, non-seekable opens, the umask and the invalidations.
pub negotiate_lem :
    (kernel : Protocol)
    → lt kernel min_version ≡ false
    → let p = negotiate kernel in
      ((p ≡ kernel) ⊎ (p ≡ max_version))
      × (ge kernel p ≡ true)
      × (ge max_version p ≡ true)
      × (ge p min_version ≡ true)
      × (has_getattr_flags p ≡ true)
      × (has_open_non_seekable p ≡ true)
      × (has_umask p ≡ true)
      × (has_invalidate p ≡ true)
unfolding negotiate lt ge has_getattr_flags has_open_non_seekable has_umask has_invalidate
negotiate_lem kernel new = elim (Bool-cases (lt kernel max_version)) [
  | inl older ↦ rw older (
    inl refl,
    ground arith,
    ground arith,
    ground arith,
    ground arith,
    ground arith,
    ground arith,
    ground arith,
  )
  | inr newer ↦ rw newer (
    inr refl,
    ground arith,
    ground arith,
    ground arith,
    ground arith,
    ground arith,
    ground arith,
    ground arith,
  )
]
