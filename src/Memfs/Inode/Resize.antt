-- ===== src/Memfs/Inode/Resize.antt =====
-- `SetAttributes` and `Fallocate`: sizes, permission bits and times.
use fuse.Base.{
  ℕ,
  ◌+◌,
  ◌/◌,
  ◌%◌,
  ◌≤◌,
  ◌<◌,
  ◌≡◌,
  ◌≢◌,
  ◌⊎◌,
  inl,
  inr,
  refl,
  sym,
  ap,
  ap₂,
  ◌∙◌,
  true,
  not,
  ◌||◌,
  Option,
  none,
  some,
  length,
  take,
  length-take,
  Bytes.{Bytes},
  Word.{two63},
  done,
  leb,
  ◌==◌,
  Bool-cases,
  leb-eq_false,
  take_of_length-le,
  arith,
}
use fuse.Memfs.Inode.{
  Inode, is_dir, is_symlink, is_file, mode_dir, mode_symlink, mode_perm_count, touch, extended,
  set_size, set_mode, set_mtime, truncate, set_attributes, fallocate,
}
use fuse.Memfs.Inode.Invariant.{IsValid}
use fuse.Memfs.Inode.Writes.{with_contents, with_contents-IsValid, touch-IsValid, room_made}
use fuse.Memfs.Inode.Contents.{
  byte_at, byte_at-extended, length-extended, extended_short, signed_le-small,
}

-- The contents after a truncation.
abbrev pub truncated : Option ℕ → Bytes → Bytes
truncated none c = c
truncated (some s) c = take s (extended c s)

length-truncated : (s : ℕ) (c : Bytes) → length (take s (extended c s)) ≡ s
length-truncated s c = omega (arith, length-take s (extended c s), length-extended c s)

set_size_lem :
    (s : ℕ) (x : Inode)
    → length x.contents < two63
    → s < two63
    → set_size s x ≡ done (with_contents (take s (extended x.contents s)) x)
unfolding set_size
set_size_lem s x small fits =
    let size : s ≡ length (take s (extended x.contents s)) = sym (length-truncated s x.contents) in
    rw (signed_le-small s (length x.contents) fits small)
      (elim (Bool-cases (leb s (length x.contents))) [
        | inl shorter ↦
            let short : s ≤ length x.contents = ground arith in
            let same : take s x.contents ≡ take s (extended x.contents s) =
              ap (take s) (sym (extended_short x.contents s short)) in
            rw (shorter, leb-eq_false two63 s fits)
              (λ i. done (record x { contents = same i; attrs = record x.attrs { size = size i } }))
        | inr longer ↦
            let long : length x.contents < s = ground arith in
            let same : extended x.contents s ≡ take s (extended x.contents s) = sym (
              take_of_length-le s (extended x.contents s)
                (omega (arith, length-extended x.contents s))) in
            rw longer
              (λ i. done (record x { contents = same i; attrs = record x.attrs { size = size i } }))
      ])

-- What the three parts of `SetAttributes` do to a valid file.
abbrev SameButSize : Inode → Inode → Type 0
SameButSize x x' = IsValid x' × (x'.attrs.mode ≡ x.attrs.mode) × (x'.attrs.mtime ≡ x.attrs.mtime)

truncate_lem :
    (size : Option ℕ) (x : Inode)
    → IsValid x
    → is_file x ≡ true
    → length x.contents < two63
    → ((s : ℕ) → size ≡ some s → s < two63)
    → (x' : Inode) × (truncate size x ≡ done x')
      × SameButSize x x'
      × (x'.contents ≡ truncated size x.contents)
truncate_lem none x v f small fits = (x, refl, (v, refl, refl), refl)
truncate_lem (some s) x v f small fits =
    let c : Bytes = take s (extended x.contents s) in
    (
      with_contents c x,
      set_size_lem s x small (fits s refl),
      (with_contents-IsValid c x v f, refl, refl),
      refl,
    )

abbrev pub perm_given : Option ℕ → ℕ → ℕ
perm_given none old = old
perm_given (some m) old = m

set_mode-IsValid : (m : ℕ) (x : Inode) → IsValid x → IsValid (set_mode (some m) x)
unfolding is_file
set_mode-IsValid m x v =
    let x' = set_mode (some m) x in
    let dir_bit : x'.attrs.mode / mode_dir ≡ x.attrs.mode / mode_dir = omega arith in
    let link_bit : x'.attrs.mode / mode_symlink ≡ x.attrs.mode / mode_symlink = omega arith in
    let same_dir : is_dir x' ≡ is_dir x = ap (λ k. k % 2 == 1) dir_bit in
    let same_link : is_symlink x' ≡ is_symlink x = ap (λ k. k % 2 == 1) link_bit in
    record {
      mode_bits = omega arith;
      one_kind = λ d. same_link ∙ v.one_kind (sym same_dir ∙ d);
      size_exact = v.size_exact;
      only_dir_entries = λ d. v.only_dir_entries (sym same_dir ∙ d);
      offsets = v.offsets;
      unique_names = v.unique_names;
      only_file_contents =
          λ f. v.only_file_contents (ap₂ (λ a b. not (a || b)) (sym same_dir) (sym same_link) ∙ f);
      only_link_target = λ l. v.only_link_target (sym same_link ∙ l);
      unused_blank = v.unused_blank;
    }

abbrev ModeSet : Option ℕ → Inode → Inode → Type 0
ModeSet mode x x' =
    IsValid x'
    × (x'.contents ≡ x.contents)
    × (x'.attrs.mtime ≡ x.attrs.mtime)
    × (x'.attrs.mode / mode_perm_count ≡ x.attrs.mode / mode_perm_count)
    × (x'.attrs.mode % mode_perm_count ≡ perm_given mode x.attrs.mode % mode_perm_count)

set_mode_lem : (mode : Option ℕ) (x : Inode) → IsValid x → ModeSet mode x (set_mode mode x)
set_mode_lem none x v = (v, refl, refl, refl, refl)
set_mode_lem (some m) x v = (set_mode-IsValid m x v, refl, refl, omega arith, omega arith)

abbrev pub time_given : Option ℕ → ℕ → ℕ
time_given none old = old
time_given (some t) old = t

set_mtime_lem :
    (mtime : Option ℕ) (x : Inode)
    → IsValid x
    → let x' = set_mtime mtime x in
      IsValid x'
      × (x'.contents ≡ x.contents)
      × (x'.attrs.mode ≡ x.attrs.mode)
      × (x'.attrs.mtime ≡ time_given mtime x.attrs.mtime)
set_mtime_lem none x v = (v, refl, refl, refl)
set_mtime_lem (some t) x v = (touch-IsValid t x v, refl, refl, refl)

-- `SetAttributes` of a valid file of less than 2^63 bytes does not panic: a size, below 2^63, cuts
-- the contents or extends them by zeros, a mode changes the permission bits and no other, and a
-- time is stored; the result is valid, and what is not given stays, but for the modification time,
-- which is then the current one.
pub set_attributes_lem :
    (now : ℕ) (size mode mtime : Option ℕ) (x : Inode)
    → IsValid x
    → is_file x ≡ true
    → length x.contents < two63
    → ((s : ℕ) → size ≡ some s → s < two63)
    → (x' : Inode) × (set_attributes now size mode mtime x ≡ done x')
      × IsValid x'
      × (x'.contents ≡ truncated size x.contents)
      × (x'.attrs.mode / mode_perm_count ≡ x.attrs.mode / mode_perm_count)
      × (x'.attrs.mode % mode_perm_count ≡ perm_given mode x.attrs.mode % mode_perm_count)
      × (x'.attrs.mtime ≡ time_given mtime now)
unfolding set_attributes is_file
set_attributes_lem now size mode mtime x v f small fits =
    let (x₁, ran, (v₁, mode₁, time₁), c₁) =
      truncate_lem size (touch now x) (touch-IsValid now x v) f small fits in
    let (v₂, c₂, time₂, high₂, low₂) = set_mode_lem mode x₁ v₁ in
    let (v₃, c₃, mode₃, time₃) = set_mtime_lem mtime (set_mode mode x₁) v₂ in
    (
      set_mtime mtime (set_mode mode x₁),
      rw ran,
      v₃,
      c₃ ∙ c₂ ∙ c₁,
      ap (λ m. m / mode_perm_count) mode₃ ∙ high₂ ∙ ap (λ m. m / mode_perm_count) mode₁,
      ap (λ m. m % mode_perm_count) mode₃
          ∙ low₂
          ∙ ap (λ m. perm_given mode m % mode_perm_count) mode₁,
      time₃ ∙ ap (time_given mtime) (time₂ ∙ time₁),
    )

-- For a valid file of less than 2^63 bytes and an end below 2^63: a mode other than 0 is refused,
-- and with mode 0 `Fallocate` keeps every byte, holes and what lies behind the end being zeros,
-- makes the file at least that long, never shorter, and keeps it valid.
pub fallocate_lem :
    (mode offset len : ℕ) (x : Inode)
    → IsValid x
    → is_file x ≡ true
    → length x.contents < two63
    → offset + len < two63
    → ((mode ≢ 0) × (fallocate mode offset len x ≡ none))
      ⊎ ((mode ≡ 0)
          × ((x' : Inode) × (fallocate mode offset len x ≡ some x')
              × IsValid x'
              × ((i : ℕ) → byte_at x'.contents i ≡ byte_at x.contents i)
              × (offset + len ≤ length x'.contents)
              × (length x.contents ≤ length x'.contents)))
unfolding fallocate
fallocate_lem mode offset len x v f small fits =
    let e : Bytes = extended x.contents (offset + len) in
    elim (Bool-cases (mode == 0)) [
      | inr other ↦ inl (ground arith, rw other)
      | inl zero_mode ↦ inr (
        ground arith,
        (
          with_contents e x,
          rw zero_mode (ap some (room_made (offset + len) x v fits small)),
          with_contents-IsValid e x v f,
          byte_at-extended x.contents (offset + len),
          omega (arith, length-extended x.contents (offset + len)),
          omega (arith, length-extended x.contents (offset + len)),
        ),
      )
    ]
