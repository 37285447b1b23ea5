-- ===== src/Connection/Requests/Trace.antt =====
-- The calls on the requests of a connection, as `ReadOp` and `Reply` make them, in any order.
use fuse.Base.{
  ℕ, ◌≡◌, refl, sym, subst, ◌∙◌, Bool, true, false, not, ◌&&◌, ◌||◌, Option, none, some, List, [],
  ◌∷◌, is_some, inl, inr, Outcome, done, panic, ◌>>=◌, ◌==◌, if◌then◌else◌, Bool-cases, arith,
}
use fuse.Connection.Requests.{
  Requests, op_forget, update, record_cancel_func, begin_op, cancel, finish_found, finish_op,
  interrupt_found, handle_interrupt,
}

-- An op is read and its context handed out, an interrupt is read, or an op is replied to.
pub data Event : Type 0 where
  read : ℕ → ℕ → ℕ → Event
  interrupt : ℕ → Event
  reply : ℕ → ℕ → Event

unfoldable pub step : Event → Requests → Outcome Requests
step (read op_code fuse_id ctx) c = begin_op op_code fuse_id ctx c >>= λ r. done r.1
step (interrupt fuse_id) c = done (handle_interrupt fuse_id c)
step (reply op_code fuse_id) c = finish_op op_code fuse_id c

unfoldable pub run : List Event → Requests → Outcome Requests
unfolding step
run [] c = done c
run (e ∷ es) c = step e c >>= run es

-- The protocol, by the IDs in flight: an ID is not used for a request while one with it is in flight,
-- and only a request in flight is replied to. Forgets are free.
abbrev pub active_after : Event → (ℕ → Bool) → ℕ → Bool
active_after (read op_code fuse_id ctx) active j =
    (not (op_code == op_forget) && j == fuse_id) || active j
active_after (interrupt fuse_id) active j = active j
active_after (reply op_code fuse_id) active j =
    active j && ((op_code == op_forget) || not (j == fuse_id))

abbrev pub allowed : Event → (ℕ → Bool) → Bool
allowed (read op_code fuse_id ctx) active = (op_code == op_forget) || not (active fuse_id)
allowed (interrupt fuse_id) active = true
allowed (reply op_code fuse_id) active = (op_code == op_forget) || active fuse_id

unfoldable pub legal : List Event → (ℕ → Bool) → Bool
legal [] active = true
legal (e ∷ es) active = allowed e active && legal es (active_after e active)

unfoldable pub in_flight : List Event → (ℕ → Bool) → ℕ → Bool
in_flight [] active = active
in_flight (e ∷ es) active = in_flight es (active_after e active)

-- The map holds a function for exactly the IDs in flight.
abbrev pub Agrees : Requests → (ℕ → Bool) → Type 0
Agrees c active = (j : ℕ) → is_some (c.cancel_funcs j) ≡ active j

-- A result that is a panic if the Boolean is false, and otherwise agrees with the IDs in flight.
abbrev pub Ends : Bool → (ℕ → Bool) → Outcome Requests → Type 0
Ends true active o = (c : Requests) × (o ≡ done c) × Agrees c active
Ends false active o = o ≡ panic

same_elsewhere :
    (fuse_id j : ℕ) (v : Option ℕ) (m : ℕ → Option ℕ)
    → is_some (update fuse_id v m j) ≡ (if j == fuse_id then is_some v else is_some (m j))
same_elsewhere fuse_id j v m = elim (Bool-cases (j == fuse_id)) [ inl e ↦ rw e | inr e ↦ rw e ]

read_lem :
    (op_code fuse_id ctx : ℕ) (c : Requests) (active : ℕ → Bool)
    → Agrees c active
    → Ends
        (allowed (read op_code fuse_id ctx) active)
        (active_after (read op_code fuse_id ctx) active)
        (step (read op_code fuse_id ctx) c)
unfolding step begin_op record_cancel_func
read_lem op_code fuse_id ctx c active h = elim (Bool-cases (op_code == op_forget)) [
  | inl forget ↦ rw forget (c, refl, λ j. ground (arith, h j))
  | inr other ↦
      rw (other, h fuse_id)
        (elim (Bool-cases (active fuse_id)) [
          | inl busy ↦ rw busy refl
          | inr free ↦ rw free (
            record c { cancel_funcs = update fuse_id (some ctx) c.cancel_funcs },
            refl,
            λ j. same_elsewhere fuse_id j (some ctx) c.cancel_funcs ∙ ground (arith, h j),
          )
        ])
]

finish_found_lem :
    (fuse_id : ℕ) (v : Option ℕ) (c : Requests) (active after : ℕ → Bool)
    → is_some v ≡ active fuse_id
    → Agrees c active
    → ((j : ℕ) → after j ≡ (active j && not (j == fuse_id)))
    → Ends (active fuse_id) after (finish_found fuse_id v c)
finish_found_lem fuse_id none c active after at h same = rw (sym at) refl
finish_found_lem fuse_id (some f) c active after at h same = rw (sym at) (
  record (cancel f c) { cancel_funcs = update fuse_id none c.cancel_funcs },
  refl,
  λ j. same_elsewhere fuse_id j none c.cancel_funcs ∙ ground (arith, h j, same j),
)

reply_lem :
    (op_code fuse_id : ℕ) (c : Requests) (active : ℕ → Bool)
    → Agrees c active
    → Ends
        (allowed (reply op_code fuse_id) active)
        (active_after (reply op_code fuse_id) active)
        (step (reply op_code fuse_id) c)
unfolding step finish_op
reply_lem op_code fuse_id c active h = elim (Bool-cases (op_code == op_forget)) [
  | inl forget ↦ rw forget (c, refl, λ j. ground (arith, h j))
  | inr other ↦ rw other (
      finish_found_lem fuse_id (c.cancel_funcs fuse_id) c active
        (active_after (reply op_code fuse_id) active) (h fuse_id) h (λ j. ground arith))
]

interrupt_found-Agrees :
    (v : Option ℕ) (c : Requests) (active : ℕ → Bool)
    → Agrees c active
    → Agrees (interrupt_found v c) active
interrupt_found-Agrees none c active h = h
interrupt_found-Agrees (some f) c active h = h

step_lem :
    (e : Event) (c : Requests) (active : ℕ → Bool)
    → Agrees c active
    → Ends (allowed e active) (active_after e active) (step e c)
unfolding step handle_interrupt
step_lem (read op_code fuse_id ctx) c active h = read_lem op_code fuse_id ctx c active h
step_lem (interrupt fuse_id) c active h = (
  interrupt_found (c.cancel_funcs fuse_id) c,
  refl,
  interrupt_found-Agrees (c.cancel_funcs fuse_id) c active h,
)
step_lem (reply op_code fuse_id) c active h = reply_lem op_code fuse_id c active h

-- From a state whose map holds the IDs in flight, a sequence of calls panics if it breaks the
-- protocol; otherwise it does not, and the map holds the IDs in flight again.
pub run_lem :
    (es : List Event) (c : Requests) (active : ℕ → Bool)
    → Agrees c active
    → Ends (legal es active) (in_flight es active) (run es c)
unfolding run legal in_flight
run_lem [] c active h = (c, refl, h)
run_lem (e ∷ es) c active h = elim (Bool-cases (allowed e active)) [
  | inl may ↦
      let (c', ran, h') =
        subst (λ b. Ends b (active_after e active) (step e c)) may (step_lem e c active h) in
      rw (may, ran) (run_lem es c' (active_after e active) h')
  | inr not_allowed ↦
      let stopped : step e c ≡ panic =
        subst (λ b. Ends b (active_after e active) (step e c)) not_allowed
          (step_lem e c active h) in
      rw (not_allowed, stopped) refl
]
