-- ===== src/Forgetfs/Ending.antt =====
-- samples/forgetfs/forget_fs.go: a file system from its start to the checks at its end.
use fuse.Base.{
  ℕ,
  ◌+◌,
  ◌<◌,
  ◌≡◌,
  refl,
  ap,
  ◌∙◌,
  ◌-◌,
  subst,
  true,
  false,
  List,
  [],
  ◌∷◌,
  length,
  All,
  done,
  ◌>>=◌,
  Word.{two64},
  ltb,
  ◌==◌,
  if◌then◌else◌,
  Bool-cases,
  inl,
  inr,
  arith,
}
use fuse.Forgetfs.{
  Inode, ForgetFs, find, increment_lookup_count, new_forget_fs, check_keys, check_invariants,
  check_counts, check, decrement_lookup_count, destroy_inode, destroy_all, destroy,
}
use fuse.Forgetfs.Ledger.{Ledger, Event, run, legal, final, Agrees, Ends, Room}
use fuse.Forgetfs.Runs.{serve_lem}

-- The root, "foo" and "bar" are looked up once from the start.
abbrev pub start : Ledger
start = record {
  held = λ j. if 1 == j then 1 else if 2 == j then 1 else if 3 == j then 1 else 0;
  next = 4;
}

pub new_forget_fs-Agrees : Agrees new_forget_fs start
unfolding new_forget_fs find increment_lookup_count
new_forget_fs-Agrees = record {
  counts = λ j. elim (Bool-cases (1 == j)) [
    | inl is ↦ rw is (refl, refl)
    | inr not_root ↦ rw not_root (elim (Bool-cases (2 == j)) [
      | inl is ↦ rw is (refl, refl)
      | inr not_foo ↦ rw not_foo (elim (Bool-cases (3 == j)) [
        | inl is ↦ rw is (refl, refl)
        | inr not_bar ↦ rw not_bar refl
      ])
    ])
  ];
  keys = (omega arith, (omega arith, (omega arith, tt)));
  same_next = refl;
}

check_keys_lem : (n : ℕ) (l : List (ℕ × Inode)) → All (λ e. e.0 < n) l → check_keys n l ≡ done tt
unfolding check_keys
check_keys_lem n [] keys = refl
check_keys_lem n ((k, x) ∷ l) keys =
    let below : ltb k n ≡ true = ground (arith, keys.0) in
    rw (below, check_keys_lem n l keys.1) refl

destroy_all_lem :
    (l : List (ℕ × Inode))
    → (l' : List (ℕ × Inode)) × (destroy_all l ≡ done l') × (check_counts l' ≡ done tt)
unfolding destroy_all destroy_inode decrement_lookup_count check_counts
destroy_all_lem [] = ([], refl, refl)
destroy_all_lem ((k, x) ∷ l) =
    let (l', ran, zero_counts) = destroy_all_lem l in
    let fits : ltb x.lookup_count x.lookup_count ≡ false = ground arith in
    let none_left : (x.lookup_count - x.lookup_count == 0) ≡ true = ground arith in
    (
      (k, record x { lookup_count = x.lookup_count - x.lookup_count }) ∷ l',
      rw (fits, ◌>>=◌, ran) refl,
      rw (none_left, zero_counts) refl,
    )

-- A new file system that serves calls which keep to the protocol, fewer than 2^64 - 5 of them, does
-- not panic; its counts are then those of the kernel's ledger, its invariants hold, and after
-- `Destroy`, which does not panic either, `Check` passes, whatever the kernel still holds.
pub run-check :
    (es : List Event)
    → legal es start ≡ true
    → length es + 5 < two64
    → (fs : ForgetFs) × (fs' : ForgetFs) × (run es new_forget_fs ≡ done fs)
      × Agrees fs (final es start)
      × (check_invariants fs ≡ done tt)
      × (destroy fs ≡ done fs')
      × (check fs' ≡ done tt)
unfolding check_invariants destroy check
run-check es is_legal few =
    let room : Room (length es) start = record { counts = λ j. ground arith; ids = omega arith } in
    let (fs, ran, a) =
      subst (λ b. Ends b (final es start) (run es new_forget_fs)) is_legal
        (serve_lem es new_forget_fs start new_forget_fs-Agrees room) in
    let (l, destroyed, zero_counts) = destroy_all_lem fs.inodes in
    (
      fs,
      record fs { inodes = l },
      ran,
      a,
      ap (λ n. check_keys n fs.inodes) a.same_next
          ∙ check_keys_lem (final es start).next fs.inodes a.keys,
      rw (destroyed, ◌>>=◌) refl,
      zero_counts,
    )
