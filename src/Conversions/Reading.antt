-- ===== src/Conversions/Reading.antt =====
-- conversions.go: what the steps of `convertInMessage` read from a message whose rest is known.
use fuse.Base.{
  ℕ,
  ◌-◌,
  ◌≤◌,
  ◌<◌,
  ◌≡◌,
  refl,
  sym,
  ap,
  subst,
  ◌∙◌,
  true,
  false,
  ◌||◌,
  some,
  [],
  ◌∷◌,
  ◌++◌,
  length,
  take,
  drop,
  length-append,
  length-take,
  length-drop,
  append-nil,
  take-append,
  drop-append,
  All,
  Bytes.{Bytes},
  ltb,
  ◌==◌,
  arith,
}
use fuse.Buffer.InMessage
use fuse.Buffer.InMessage.{InMessage, InHeader, slice_bytes, header, advance, front}
use fuse.Buffer.InMessage.Cursor.{IsValid, view, split_view}
use fuse.Conversions.Exchange.{
  Exchange, Conversion, ok, take_struct, take_rest, index_nul, ends_nul, whole_name,
  name_before_nul,
}

-- The rest of the incoming message is `b`.
pub record Holds (b : Bytes) (x : Exchange) : Type 0 where
  pub valid : IsValid x.incoming
  pub left : view x.incoming ≡ b

abbrev pub advanced : ℕ → Exchange → Exchange
advanced n x = record x { incoming = advance x.incoming n }

length-view : (m : InMessage) → IsValid m → length (view m) ≡ m.remaining.len
length-view m v = omega (
  arith,
  v.message_fits,
  v.remaining_fits,
  length-take m.remaining.len (drop m.remaining.off m.storage),
  length-drop m.remaining.off m.storage,
)

pub length-left : (b : Bytes) (x : Exchange) → Holds b x → x.incoming.remaining.len ≡ length b
length-left b x h = sym (length-view x.incoming h.valid) ∙ ap length h.left

advance-IsValid : (n : ℕ) (m : InMessage) → IsValid m → n ≤ m.remaining.len → IsValid (advance m n)
advance-IsValid n m v h = record {
  message_fits = v.message_fits;
  remaining_fits = omega (arith, v.remaining_fits);
}

-- The first of two strings, when its length is known, and the second.
split-append :
    (xs ys us vs : Bytes) → xs ++ ys ≡ us ++ vs → length xs ≡ length us → (xs ≡ us) × (ys ≡ vs)
split-append xs ys us vs e same = (
  sym (take-append xs ys (length us) (sym same))
      ∙ ap (take (length us)) e
      ∙ take-append us vs (length us) refl,
  sym (drop-append xs ys (length us) (sym same))
      ∙ ap (drop (length us)) e
      ∙ drop-append us vs (length us) refl,
)

front-view :
    (xs ys : Bytes) (x : Exchange) (n : ℕ)
    → Holds (xs ++ ys) x
    → length xs ≡ n
    → (slice_bytes x.incoming.storage (front x.incoming n) ≡ xs) × Holds ys (advanced n x)
front-view xs ys x n h size =
    let m = x.incoming in
    let fits : n ≤ m.remaining.len =
      omega (arith, length-left (xs ++ ys) x h, length-append xs ys) in
    let same : length (slice_bytes m.storage (front m n)) ≡ length xs = omega (
      arith,
      h.valid.message_fits,
      h.valid.remaining_fits,
      length-take n (drop m.remaining.off m.storage),
      length-drop m.remaining.off m.storage,
    ) in
    let (first, second) =
      split-append (slice_bytes m.storage (front m n)) (view (advance m n)) xs ys
        (split_view m n fits ∙ h.left) same in
    (first, record { valid = advance-IsValid n m h.valid fits; left = second })

-- A structure at the front of what is left is read, and the rest stays.
pub take_struct_lem :
    (xs ys : Bytes) (n : ℕ) (x : Exchange)
    → Holds (xs ++ ys) x
    → length xs ≡ n
    → 0 < n
    → (take_struct n x ≡ ok (xs, advanced n x)) × Holds ys (advanced n x)
unfolding take_struct InMessage.consume InMessage.len
take_struct_lem xs ys n x h size pos =
    let enough : (x.incoming.remaining.len == 0 || ltb x.incoming.remaining.len n) ≡ false =
      ground (arith, length-left (xs ++ ys) x h, length-append xs ys) in
    let (bytes, rest) = front-view xs ys x n h size in
    (rw (take_struct, enough) (ap (λ b. ok (b, advanced n x)) bytes), rest)

-- A structure that is not whole is refused.
pub take_struct_short :
    (b : Bytes) (n : ℕ) (x : Exchange)
    → Holds b x
    → length b < n
    → take_struct n x ≡ Conversion.corrupt
unfolding take_struct InMessage.consume InMessage.len
take_struct_short b n x h short =
    let few : (x.incoming.remaining.len == 0 || ltb x.incoming.remaining.len n) ≡ true =
      ground (arith, length-left b x h) in
    rw (take_struct, few) refl

-- `ConsumeBytes` of all that is left gives all of it.
pub take_rest_lem :
    (x : Exchange) → take_rest x ≡ ok (view x.incoming, advanced x.incoming.remaining.len x)
unfolding take_rest InMessage.consume_bytes InMessage.len
take_rest_lem x =
    let enough : ltb x.incoming.remaining.len x.incoming.remaining.len ≡ false = ground arith in
    rw (take_rest, enough) refl

pub take_rest-Holds :
    (b : Bytes) (x : Exchange) → Holds b x → take_rest x ≡ ok (b, advanced (length b) x)
take_rest-Holds b x h =
    take_rest_lem x
    ∙ ap (λ b'. ok (b', advanced x.incoming.remaining.len x)) h.left
    ∙ ap (λ n. ok (b, advanced n x)) (length-left b x h)

-- Then nothing is left.
pub rest_Holds : (b : Bytes) (x : Exchange) → Holds b x → Holds [] (advanced (length b) x)
rest_Holds b x h =
    (front-view b [] x (length b) (subst (λ b'. Holds b' x) (sym (append-nil b)) h) refl).1

-- A structure and all that follows it.
pub read_both :
    (b rest : Bytes) (n : ℕ) (x : Exchange)
    → Holds (b ++ rest) x
    → length b ≡ n
    → 0 < n
    → (take_struct n x ≡ ok (b, advanced n x))
      × (take_rest (advanced n x) ≡ ok (rest, advanced (length rest) (advanced n x)))
      × Holds [] (advanced (length rest) (advanced n x))
read_both b rest n x r size pos =
    let (ran, left) = take_struct_lem b rest n x r size pos in
    (ran, take_rest-Holds rest (advanced n x) left, rest_Holds rest (advanced n x) left)

-- A structure and nothing behind it.
pub read_only :
    (b : Bytes) (n : ℕ) (x : Exchange)
    → Holds b x
    → length b ≡ n
    → 0 < n
    → (take_struct n x ≡ ok (b, advanced n x)) × Holds [] (advanced n x)
read_only b n x r size pos =
    take_struct_lem b [] n x (subst (λ b'. Holds b' x) (sym (append-nil b)) r) size pos

-- A name as Go and the kernel see it: no byte of it is NUL.
abbrev pub IsName : Bytes → Type 0
IsName = All (λ c. 0 < c)

pub index_nul-append :
    (name rest : Bytes) → IsName name → index_nul (name ++ 0 ∷ rest) ≡ some (length name)
unfolding index_nul
index_nul-append [] rest h = refl
index_nul-append (c ∷ cs) rest h =
    let not_nul : (c == 0) ≡ false = ground (arith, h.0) in
    rw (not_nul, index_nul-append cs rest h.1) refl

pub ends_nul-append : (name : Bytes) → ends_nul (name ++ 0 ∷ []) ≡ true
unfolding ends_nul
ends_nul-append [] = refl
ends_nul-append (c ∷ []) = refl
ends_nul-append (c ∷ d ∷ cs) = ends_nul-append (d ∷ cs)

pub whole_name_lem : (name : Bytes) (x : Exchange) → whole_name (name ++ 0 ∷ []) x ≡ ok (name, x)
unfolding whole_name
whole_name_lem name x = rw (ends_nul-append name) (
    ap (λ b. ok (b, x))
      (take-append name (0 ∷ []) (length (name ++ 0 ∷ []) - 1)
        (omega (arith, length-append name (0 ∷ [])))))

pub name_before_nul_lem :
    (name rest : Bytes) (x : Exchange)
    → IsName name
    → name_before_nul (name ++ 0 ∷ rest) x ≡ ok (name, x)
unfolding name_before_nul
name_before_nul_lem name rest x h =
    rw (index_nul-append name rest h)
      (ap (λ b. ok (b, x)) (take-append name (0 ∷ rest) (length name) refl))
