-- ===== src/Base/Bytes.antt =====
-- Byte strings, with the little-endian integers that the kernel's structs hold.
use fuse.Base.Lists.{
  length, take, drop, take-append, drop-append, length-append, drop-drop, take_of_length-le,
}
use fuse.Base.Tests.{◌==◌}
use mathlib.Core.Logic.{◌↔◌}
use mathlib.Core.Bool.{Bool, true, false, ◌&&◌}
use Prim.Native.Nat.{ℕ, zero, suc, min, ◌-◌, ◌+◌, ◌*◌, ◌/◌, ◌%◌, ◌^◌, ◌<◌, ◌≤◌}
use mathlib.Core.Path.{◌≡◌, refl, sym, ap, ◌∙◌}
use mathlib.Core.List.{List, [], ◌∷◌, ◌++◌}
use native.Mathlib.Nat.{pow-suc}
use native.Mathlib.Omega.{arith}

abbrev pub Bytes : Type 0
Bytes = List ℕ

-- `k` bytes of `n`, the least first.
unfoldable pub to_le : ℕ → ℕ → Bytes
to_le zero n = []
to_le (suc k) n = (n % 256) ∷ to_le k (n / 256)

unfoldable pub of_le : Bytes → ℕ
of_le [] = 0
of_le (b ∷ bs) = b + 256 * of_le bs

pub length-to_le : (k n : ℕ) → length (to_le k n) ≡ k
unfolding to_le
length-to_le zero n = refl
length-to_le (suc k) n = ap suc (length-to_le k (n / 256))

pub of_le-to_le : (k n : ℕ) → n < 256 ^ k → of_le (to_le k n) ≡ n
unfolding to_le of_le
of_le-to_le zero n h = omega arith
of_le-to_le (suc k) n h = omega (arith, of_le-to_le k (n / 256) (omega (arith, pow-suc 256 k)))

-- Equality of byte strings, which Go's `==` on strings computes.
unfoldable pub bytes_eq : Bytes → Bytes → Bool
bytes_eq [] [] = true
bytes_eq (x ∷ xs) (y ∷ ys) = x == y && bytes_eq xs ys
bytes_eq _ _ = false

pub bytes_eq_iff : (xs ys : Bytes) → (bytes_eq xs ys ≡ true) ↔ (xs ≡ ys)
unfolding bytes_eq
bytes_eq_iff [] [] = (λ _. refl, λ _. refl)
bytes_eq_iff [] (y ∷ ys) = (λ e. cc, λ e. cc)
bytes_eq_iff (x ∷ xs) [] = (λ e. cc, λ e. cc)
bytes_eq_iff (x ∷ xs) (y ∷ ys) = ground (arith, bytes_eq_iff xs ys)

pub bytes_eq_refl : (xs : Bytes) → bytes_eq xs xs ≡ true
bytes_eq_refl xs = (bytes_eq_iff xs xs).1 refl

-- Go's `copy(buf[off:], src)`: the new contents of `buf`, and the number of bytes copied.
unfoldable pub copy : ℕ → Bytes → Bytes → Bytes × ℕ
copy off src buf =
    let k = min (length buf - off) (length src) in
    (take off buf ++ (take k src ++ drop (off + k) buf), k)

-- Where the source fits behind a prefix, it replaces what stands there.
pub copy-append :
    (off : ℕ) (pre src buf : Bytes)
    → off ≡ length pre
    → length src ≤ length buf
    → copy off src (pre ++ buf) ≡ (pre ++ (src ++ drop (length src) buf), length src)
unfolding copy
copy-append off pre src buf e h =
    let k : min (length (pre ++ buf) - off) (length src) ≡ length src =
      omega (arith, length-append pre buf) in
    let tail : drop (off + length src) (pre ++ buf) ≡ drop (length src) buf =
      sym (drop-drop (length src) off (pre ++ buf))
      ∙ ap (drop (length src)) (drop-append pre buf off e) in
    rw (k, tail, take-append pre buf off e, take_of_length-le (length src) src (omega arith))
