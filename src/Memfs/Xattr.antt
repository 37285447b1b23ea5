-- ===== src/Memfs/Xattr.antt =====
-- The map `xattrs` of an inode, as an association list without order.
use fuse.Base.{
  ◌≡◌,
  refl,
  Option,
  none,
  some,
  List,
  [],
  ◌∷◌,
  Bytes.{Bytes, bytes_eq, bytes_eq_iff},
  arith,
  if◌then◌else◌,
}

unfoldable pub lookup : Bytes → List (Bytes × Bytes) → Option Bytes
lookup name [] = none
lookup name ((other, value) ∷ rest) = if bytes_eq other name then some value else lookup name rest

-- `xattrs[name] = value`
unfoldable pub insert : Bytes → Bytes → List (Bytes × Bytes) → List (Bytes × Bytes)
insert name value [] = (name, value) ∷ []
insert name value ((other, old) ∷ rest) =
    if bytes_eq other name then (other, value) ∷ rest else (other, old) ∷ insert name value rest

-- `delete(xattrs, name)`, where the map holds a name once.
unfoldable pub erase : Bytes → List (Bytes × Bytes) → List (Bytes × Bytes)
erase name [] = []
erase name ((other, old) ∷ rest) =
    let left = erase name rest in if bytes_eq other name then left else (other, old) ∷ left

pub lookup-insert :
    (name other value : Bytes) (xattrs : List (Bytes × Bytes))
    → lookup other (insert name value xattrs)
      ≡ (if bytes_eq name other then some value else lookup other xattrs)
unfolding lookup insert
lookup-insert name other value [] = refl
lookup-insert name other value ((first, old) ∷ rest) = ground (
  arith,
  lookup-insert name other value rest,
  bytes_eq_iff name other,
  bytes_eq_iff first name,
  bytes_eq_iff first other,
)

pub lookup-erase :
    (name other : Bytes) (xattrs : List (Bytes × Bytes))
    → lookup other (erase name xattrs) ≡ (if bytes_eq name other then none else lookup other xattrs)
unfolding lookup erase
lookup-erase name other [] = ground arith
lookup-erase name other ((first, old) ∷ rest) = ground (
  arith,
  lookup-erase name other rest,
  bytes_eq_iff name other,
  bytes_eq_iff first name,
  bytes_eq_iff first other,
)
