-- ===== src/Forgetfs/Runs.antt =====
-- samples/forgetfs/forget_fs.go: a file system panics exactly if the kernel breaks the protocol.
use fuse.Base.{
  ℕ, suc, ◌+◌, ◌-◌, ◌<◌, ◌≡◌, refl, sym, subst, true, false, inl, inr, Option, none, some, List, [],
  ◌∷◌, length, All, done, panic, ◌>>=◌, ltb, leb, ◌==◌, if◌then◌else◌, Bool-cases, arith,
}
use fuse.Forgetfs.{
  Inode, ForgetFs, find, assign, increment_lookup_count, decrement_lookup_count, put_inode,
  child_of, look_up_child, look_up_inode, get_inode_attributes, forget_inode, mk_dir, create_file,
  open_file, open_dir, fresh, mint,
}
use fuse.Conversions.{mode_dir}
use fuse.Forgetfs.Ledger.{
  Ledger, Event, look_up, attributes, forget, make_dir, make_file, open_it, open_listing, step, run,
  child_held, allowed, holding, child_after, minted, after, legal, final, Tracks, Agrees, Ends,
  Room, find-assign, keys-assign, held-below, find_cases,
}

-- An inode that is put back with another count.
put_inode-Agrees :
    (fs : ForgetFs) (l : Ledger) (id n : ℕ) (x : Inode)
    → Agrees fs l
    → id < l.next
    → x.lookup_count ≡ n
    → x.looked_up ≡ true
    → Agrees (put_inode id x fs) (holding id n l)
put_inode-Agrees fs l id n x a below count looked = record {
  counts = λ j.
      subst (λ o. Tracks o (if j == id then n else l.held j)) (sym (find-assign j id x fs.inodes))
        (settle j);
  keys = keys-assign l.next id x fs.inodes a.keys below;
  same_next = a.same_next;
}
  where
    settle :
        (j : ℕ)
        → Tracks (if j == id then some x else find j fs.inodes) (if j == id then n else l.held j)
    settle j = elim (Bool-cases (j == id)) [
      | inl is_id ↦ rw is_id (count, looked)
      | inr other ↦ rw other (a.counts j)
    ]

-- A new inode has one lookup, and its ID was free.
mint-Agrees :
    (fs : ForgetFs) (l : Ledger) (n type : ℕ)
    → Agrees fs l
    → Room (suc n) l
    → Agrees (mint type fs).1 (minted l)
unfolding increment_lookup_count
mint-Agrees fs l n type a room =
    let child = increment_lookup_count (fresh 0 type) in
    let up : ForgetFs = record fs { next_inode_id = l.next + 1 } in
    let wider : Agrees up (record l { next = l.next + 1 }) = record {
      counts = a.counts;
      keys = widen l.next fs.inodes a.keys;
      same_next = refl;
    } in
    let put =
      put_inode-Agrees up (record l { next = l.next + 1 }) l.next 1 child wider (omega arith) refl
        refl in
    record {
      counts =
          subst (λ k. (j : ℕ) → Tracks (find j (assign k child fs.inodes)) ((minted l).held j))
            (sym a.same_next) put.counts;
      keys =
          subst (λ k. All (λ e. e.0 < l.next + 1) (assign k child fs.inodes)) (sym a.same_next)
            put.keys;
      same_next = ground (arith, a.same_next, room.ids);
    }
  where
    widen : (n : ℕ) (l : List (ℕ × Inode)) → All (λ e. e.0 < n) l → All (λ e. e.0 < n + 1) l
    widen n [] keys = tt
    widen n (e ∷ l) keys = (omega (arith, keys.0), widen n l keys.1)

look_up_child_lem :
    (c : Option ℕ) (fs : ForgetFs) (l : Ledger) (n : ℕ)
    → Agrees fs l
    → Room (suc n) l
    → Ends (child_held c l) (child_after c l) (look_up_child c fs >>= λ r. done r.1)
unfolding increment_lookup_count
look_up_child_lem none fs l n a room = (fs, refl, a)
look_up_child_lem (some id) fs l n a room = elim (find_cases fs l id a) [
  | inl (not_held, panics) ↦ rw (not_held, panics, ◌>>=◌) refl
  | inr (is, pos, (x, found, count, looked)) ↦
      rw (is, found, ◌>>=◌)
        (
          put_inode id (increment_lookup_count x) fs,
          refl,
          put_inode-Agrees fs l id (l.held id + 1) (increment_lookup_count x) a
              (held-below fs l id a pos) (ground (arith, count, room.counts id)) refl,
        )
]

decrement_lem :
    (fs : ForgetFs) (l : Ledger) (id n : ℕ) (x : Inode)
    → Agrees fs l
    → id < l.next
    → x.lookup_count ≡ l.held id
    → x.looked_up ≡ true
    → Ends
        (leb n (l.held id))
        (holding id (l.held id - n) l)
        (decrement_lookup_count n x >>= λ x'. done (put_inode id x' fs))
unfolding decrement_lookup_count
decrement_lem fs l id n x a below count looked = elim (Bool-cases (leb n (l.held id))) [
  | inl enough ↦
      let fits : ltb x.lookup_count n ≡ false = ground (arith, count) in
      let x' : Inode = record x { lookup_count = x.lookup_count - n } in
      rw (enough, fits, ◌>>=◌)
        (
          put_inode id x' fs,
          refl,
          put_inode-Agrees fs l id (l.held id - n) x' a below (omega (arith, count)) looked,
        )
  | inr too_many ↦
      let short : ltb x.lookup_count n ≡ true = ground (arith, count) in
      rw (too_many, short, ◌>>=◌) refl
]

step_lem :
    (e : Event) (fs : ForgetFs) (l : Ledger) (n : ℕ)
    → Agrees fs l
    → Room (suc n) l
    → Ends (allowed e l) (after e l) (step e fs)
unfolding look_up_inode get_inode_attributes forget_inode decrement_lookup_count mk_dir create_file
    open_file open_dir
step_lem (look_up parent name) fs l n a room = elim (find_cases fs l parent a) [
  | inl (not_held, panics) ↦ rw (not_held, look_up_inode, panics, ◌>>=◌) refl
  | inr (is, pos, (x, found, count, looked)) ↦
      rw (is, look_up_inode, found, ◌>>=◌) (look_up_child_lem (child_of parent name) fs l n a room)
]
step_lem (attributes id) fs l n a room = elim (find_cases fs l id a) [
  | inl (not_held, panics) ↦ rw (not_held, get_inode_attributes, panics, ◌>>=◌) refl
  | inr (is, pos, (x, found, count, looked)) ↦
      rw (is, get_inode_attributes, found, ◌>>=◌) (fs, refl, a)
]
step_lem (forget id k) fs l n a room = elim (find_cases fs l id a) [
  | inl (not_held, panics) ↦ rw (not_held, forget_inode, panics, ◌>>=◌) refl
  | inr (is, pos, (x, found, count, looked)) ↦
      rw (is, forget_inode, found, ◌>>=◌)
        (decrement_lem fs l id k x a (held-below fs l id a pos) count looked)
]
step_lem (make_dir parent) fs l n a room = elim (find_cases fs l parent a) [
  | inl (not_held, panics) ↦ rw (not_held, mk_dir, panics, ◌>>=◌) refl
  | inr (is, pos, (x, found, count, looked)) ↦
      rw (is, mk_dir, found, ◌>>=◌) ((mint mode_dir fs).1, refl, mint-Agrees fs l n mode_dir a room)
]
step_lem (make_file parent) fs l n a room = elim (find_cases fs l parent a) [
  | inl (not_held, panics) ↦ rw (not_held, create_file, panics, ◌>>=◌) refl
  | inr (is, pos, (x, found, count, looked)) ↦
      rw (is, create_file, found, ◌>>=◌) ((mint 0 fs).1, refl, mint-Agrees fs l n 0 a room)
]
step_lem (open_it id) fs l n a room = elim (find_cases fs l id a) [
  | inl (not_held, panics) ↦ rw (not_held, open_file, panics, ◌>>=◌) refl
  | inr (is, pos, (x, found, count, looked)) ↦ rw (is, open_file, found, ◌>>=◌) (fs, refl, a)
]
step_lem (open_listing id) fs l n a room = elim (find_cases fs l id a) [
  | inl (not_held, panics) ↦ rw (not_held, open_dir, panics, ◌>>=◌) refl
  | inr (is, pos, (x, found, count, looked)) ↦ rw (is, open_dir, found, ◌>>=◌) (fs, refl, a)
]

Room-after : (e : Event) (l : Ledger) (n : ℕ) → Room (suc n) l → Room n (after e l)
Room-after (look_up parent name) l n room = child_room (child_of parent name)
  where
    child_room : (c : Option ℕ) → Room n (child_after c l)
    child_room none = record {
      counts = λ j. omega (arith, room.counts j);
      ids = omega (arith, room.ids);
    }
    child_room (some id) = record {
      counts = λ j. ground (arith, room.counts j, room.counts id);
      ids = omega (arith, room.ids);
    }
Room-after (attributes id) l n room = record {
  counts = λ j. omega (arith, room.counts j);
  ids = omega (arith, room.ids);
}
Room-after (forget id k) l n room = record {
  counts = λ j. ground (arith, room.counts j, room.counts id);
  ids = omega (arith, room.ids);
}
Room-after (make_dir parent) l n room = record {
  counts = λ j. ground (arith, room.counts j, room.ids);
  ids = omega (arith, room.ids);
}
Room-after (make_file parent) l n room = record {
  counts = λ j. ground (arith, room.counts j, room.ids);
  ids = omega (arith, room.ids);
}
Room-after (open_it id) l n room = record {
  counts = λ j. omega (arith, room.counts j);
  ids = omega (arith, room.ids);
}
Room-after (open_listing id) l n room = record {
  counts = λ j. omega (arith, room.counts j);
  ids = omega (arith, room.ids);
}

-- From a state whose counts are the ledger's, and with room in the counters for one more lookup per
-- call, a sequence of calls panics exactly if the kernel names an inode whose lookups it has all
-- forgotten, or forgets more than it looked up; otherwise the counts are those of the ledger again.
pub serve_lem :
    (es : List Event) (fs : ForgetFs) (l : Ledger)
    → Agrees fs l
    → Room (length es) l
    → Ends (legal es l) (final es l) (run es fs)
unfolding run legal final
serve_lem [] fs l a room = (fs, refl, a)
serve_lem (e ∷ es) fs l a room = elim (Bool-cases (allowed e l)) [
  | inl may ↦
      let (fs', ran, a') =
        subst (λ b. Ends b (after e l) (step e fs)) may (step_lem e fs l (length es) a room) in
      rw (may, ran, ◌>>=◌) (serve_lem es fs' (after e l) a' (Room-after e l (length es) room))
  | inr not_allowed ↦
      let stopped : step e fs ≡ panic =
        subst (λ b. Ends b (after e l) (step e fs)) not_allowed
          (step_lem e fs l (length es) a room) in
      rw (not_allowed, stopped, ◌>>=◌) refl
]
