-- ===== src/Connection/Requests/Contexts.antt =====
-- The contexts that `ReadOp` hands out, and their cancellation.
use fuse.Base.{
  ℕ, ◌≡◌, refl, sym, subst, ap, ◌∙◌, Bool, true, false, Option, none, some, List, [], ◌∷◌, is_some,
  inl, inr, ◌⊎◌, All, Outcome, done, panic, ◌>>=◌, ◌==◌, ==_refl, if◌then◌else◌, Bool-cases, arith,
}
use fuse.Connection.Requests.{
  Requests, op_forget, update, record_cancel_func, begin_op, finish_found, finish_op,
  interrupt_found, handle_interrupt, new_requests,
}
use fuse.Connection.Requests.Trace.{
  Event, read, interrupt, reply, step, run, legal, in_flight, Agrees, Ends, run_lem,
}

abbrev pub IsIn : ℕ → List ℕ → Type 0
IsIn k [] = ⊥
IsIn k (j ∷ l) = (k ≡ j) ⊎ IsIn k l

-- The contexts that reads hand out.
unfoldable pub issued : List Event → List ℕ
issued [] = []
issued (read op_code fuse_id ctx ∷ es) =
    let rest = issued es in if op_code == op_forget then rest else ctx ∷ rest
issued (interrupt fuse_id ∷ es) = issued es
issued (reply op_code fuse_id ∷ es) = issued es

-- A function in the map cancels the context, or it is cancelled already.
abbrev pub Tracked : ℕ → Requests → Type 0
Tracked k c = ((id : ℕ) × (c.cancel_funcs id ≡ some k)) ⊎ IsIn k c.cancelled

abbrev pub Kept : ℕ → Outcome Requests → Type 0
Kept k panic = Unit {0}
Kept k (done c) = Tracked k c

some_eq : (f k : ℕ) → ◌≡◌ {A = Option ℕ} (some f) (some k) → k ≡ f
some_eq f k h = cc

taken :
    (k id fuse_id f : ℕ) (c : Requests)
    → id ≡ fuse_id
    → some f ≡ c.cancel_funcs fuse_id
    → c.cancel_funcs id ≡ some k
    → k ≡ f
taken k id fuse_id f c same at held = some_eq f k (at ∙ sym (ap c.cancel_funcs same) ∙ held)

finish_keeps :
    (k fuse_id : ℕ) (v : Option ℕ) (c : Requests)
    → v ≡ c.cancel_funcs fuse_id
    → Tracked k c
    → Kept k (finish_found fuse_id v c)
finish_keeps k fuse_id none c at h = tt
finish_keeps k fuse_id (some f) c at (inr gone) = inr (inr gone)
finish_keeps k fuse_id (some f) c at (inl (id, held)) = elim (Bool-cases (id == fuse_id)) [
  | inl here ↦ inr (inl (taken k id fuse_id f c (ground arith) at held))
  | inr there ↦ inl (id, rw there held)
]

interrupt_keeps :
    (k : ℕ) (v : Option ℕ) (c : Requests) → Tracked k c → Tracked k (interrupt_found v c)
interrupt_keeps k none c h = h
interrupt_keeps k (some f) c (inl held) = inl held
interrupt_keeps k (some f) c (inr gone) = inr (inr gone)

record_keeps :
    (k fuse_id ctx : ℕ) (c : Requests)
    → is_some (c.cancel_funcs fuse_id) ≡ false
    → Tracked k c
    → Tracked k (record c { cancel_funcs = update fuse_id (some ctx) c.cancel_funcs })
record_keeps k fuse_id ctx c free (inr gone) = inr gone
record_keeps k fuse_id ctx c free (inl (id, held)) = elim (Bool-cases (id == fuse_id)) [
  | inl here ↦
      let same : id ≡ fuse_id = ground arith in
      let busy : true ≡ false =
        sym (ap is_some held) ∙ ap (λ j. is_some (c.cancel_funcs j)) same ∙ free in
      cc
  | inr there ↦ inl (id, rw there held)
]

read_keeps :
    (k op_code fuse_id ctx : ℕ) (c : Requests)
    → Tracked k c
    → Kept k (step (read op_code fuse_id ctx) c)
unfolding step begin_op record_cancel_func
read_keeps k op_code fuse_id ctx c h = elim (Bool-cases (op_code == op_forget)) [
  | inl forget ↦ rw forget h
  | inr other ↦ rw other (elim (Bool-cases (is_some (c.cancel_funcs fuse_id))) [
    | inl busy ↦ rw busy tt
    | inr free ↦ rw free (record_keeps k fuse_id ctx c free h)
  ])
]

step_keeps : (k : ℕ) (e : Event) (c : Requests) → Tracked k c → Kept k (step e c)
unfolding step handle_interrupt finish_op
step_keeps k (read op_code fuse_id ctx) c h = read_keeps k op_code fuse_id ctx c h
step_keeps k (interrupt fuse_id) c h = interrupt_keeps k (c.cancel_funcs fuse_id) c h
step_keeps k (reply op_code fuse_id) c h = elim (Bool-cases (op_code == op_forget)) [
  | inl forget ↦ rw forget h
  | inr other ↦ rw other (finish_keeps k fuse_id (c.cancel_funcs fuse_id) c refl h)
]

run_keeps : (k : ℕ) (es : List Event) (o : Outcome Requests) → Kept k o → Kept k (o >>= run es)
unfolding run
run_keeps k es panic h = tt
run_keeps k [] (done c) h = h
run_keeps k (e ∷ es) (done c) h = run_keeps k es (step e c) (step_keeps k e c h)

-- A read that hands out a context keeps track of it.
read_tracks :
    (op_code fuse_id ctx : ℕ) (c : Requests)
    → (op_code == op_forget) ≡ false
    → Kept ctx (step (read op_code fuse_id ctx) c)
unfolding step begin_op record_cancel_func
read_tracks op_code fuse_id ctx c other =
    rw other (elim (Bool-cases (is_some (c.cancel_funcs fuse_id))) [
      | inl busy ↦ rw busy tt
      | inr free ↦ rw free (inl (fuse_id, rw (==_refl fuse_id) refl))
    ])

All-Kept-panic : (l : List ℕ) → All (λ k. Kept k panic) l
All-Kept-panic [] = tt
All-Kept-panic (k ∷ l) = (tt, All-Kept-panic l)

run_tracks : (es : List Event) (o : Outcome Requests) → All (λ k. Kept k (o >>= run es)) (issued es)
unfolding run issued
run_tracks es panic = All-Kept-panic (issued es)
run_tracks [] (done c) = tt
run_tracks (read op_code fuse_id ctx ∷ es) (done c) =
    let o = step (read op_code fuse_id ctx) c in
    elim (Bool-cases (op_code == op_forget)) [
      | inl forget ↦ rw forget (run_tracks es o)
      | inr other ↦
          rw other (run_keeps ctx es o (read_tracks op_code fuse_id ctx c other), run_tracks es o)
    ]
run_tracks (interrupt fuse_id ∷ es) (done c) = run_tracks es (step (interrupt fuse_id) c)
run_tracks (reply op_code fuse_id ∷ es) (done c) = run_tracks es (step (reply op_code fuse_id) c)

-- With nothing in flight, what is tracked is cancelled.
Tracked-cancelled :
    (c : Requests) (active : ℕ → Bool)
    → Agrees c active
    → ((j : ℕ) → active j ≡ false)
    → (l : List ℕ) → All (λ k. Tracked k c) l
    → All (λ k. IsIn k c.cancelled) l
Tracked-cancelled c active at idle [] h = tt
Tracked-cancelled c active at idle (k ∷ l) (inl (id, held), h) =
    let busy : true ≡ false = sym (ap is_some held) ∙ at id ∙ idle id in absurd cc
Tracked-cancelled c active at idle (k ∷ l) (inr gone, h) =
    (gone, Tracked-cancelled c active at idle l h)

-- From a new connection, reads, interrupts and replies that follow the protocol do not panic, and
-- every context handed out is then cancelled or has its function still in the map.
pub contexts-Tracked :
    (es : List Event)
    → legal es (λ _. false) ≡ true
    → (c : Requests) × (run es new_requests ≡ done c)
      × Agrees c (in_flight es (λ _. false))
      × All (λ k. Tracked k c) (issued es)
contexts-Tracked es ok =
    let (c, ran, agrees) =
      subst (λ b. Ends b (in_flight es (λ _. false)) (run es new_requests)) ok
        (run_lem es new_requests (λ _. false) (λ j. refl)) in
    (
      c,
      ran,
      agrees,
      subst (λ o. All (λ k. Kept k o) (issued es)) ran (run_tracks es (done new_requests)),
    )

-- From a new connection, if reads, interrupts and replies follow the protocol and every request was
-- replied to, they do not panic, and every context that was handed out is cancelled.
pub contexts_cancelled :
    (es : List Event)
    → legal es (λ _. false) ≡ true
    → ((j : ℕ) → in_flight es (λ _. false) j ≡ false)
    → (c : Requests) × (run es new_requests ≡ done c) × All (λ k. IsIn k c.cancelled) (issued es)
contexts_cancelled es ok idle =
    let (c, ran, agrees, tracked) = contexts-Tracked es ok in
    (c, ran, Tracked-cancelled c (in_flight es (λ _. false)) agrees idle (issued es) tracked)
