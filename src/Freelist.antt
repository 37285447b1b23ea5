-- ===== src/Freelist.antt =====
-- internal/freelist/freelist.go: a freelist of pointers. A pointer is an element of any type.
pub mod Order
mod Tests
use fuse.Base.{
  ℕ, ◌-◌, Bool, Option, none, some, List, [], ◌∷◌, ◌++◌, length, get_elem?, take, ◌==◌,
  if◌then◌else◌,
}

pub record Freelist {ℓ} (A : Type ℓ) : Type ℓ where
  pub list : List A

module _ {ℓ} {A : Type ℓ} where
  -- `nil` is `none`; otherwise the last element goes.
  unfoldable pub get : Freelist A → Option A × Freelist A
  get fl =
      let l = length fl.list in
      if l == 0
      then (none, fl)
      else (get_elem? fl.list (l - 1), record fl { list = take (l - 1) fl.list })

  unfoldable pub put : A → Freelist A → Freelist A
  put p fl = record fl { list = fl.list ++ p ∷ [] }
