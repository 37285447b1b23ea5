-- ===== src/Freelist/Order.antt =====
-- The freelist is a stack.
use fuse.Base.{
  ◌≡◌, refl, some, [], ◌∷◌, length, get_elem?-append_length, length-append, take-append, arith,
}
use fuse.Freelist.{Freelist, get, put}

module _ {ℓ} {A : Type ℓ} where
  -- What was put last comes back first, and the list is as it was before.
  pub get-put : (p : A) (fl : Freelist A) → get (put p fl) ≡ (some p, fl)
  unfolding get put
  get-put p fl = ground (
    arith,
    length-append fl.list (p ∷ []),
    get_elem?-append_length fl.list p [],
    take-append fl.list (p ∷ []) (length fl.list) refl,
  )
