-- ===== src/Connection/Requests.antt =====
-- connection.go: the requests in flight and their cancellation. A cancellation function is the number
-- of the context that it cancels; the numbers of the contexts that are cancelled are kept beside the
-- map. The context that `context.WithCancel` makes is an argument of `begin_op`.
pub mod Trace
pub mod Contexts
use fuse.Base.{
  ℕ, Bool, true, false, ◌||◌, Option, none, some, List, [], ◌∷◌, is_some, Outcome, done, panic,
  ◌>>=◌, ◌==◌, if◌then◌else◌,
}

pub record Requests : Type 0 where
  pub cancel_funcs : ℕ → Option ℕ
  pub cancelled : List ℕ

abbrev pub op_forget : ℕ
op_forget = 2

-- `make(map[uint64]func())`
abbrev pub new_requests : Requests
new_requests = record { cancel_funcs = λ _. none; cancelled = [] }

-- `m[id] = v`, and `delete(m, id)` for `none`.
abbrev pub update : ℕ → Option ℕ → (ℕ → Option ℕ) → ℕ → Option ℕ
update id v m j = if j == id then v else m j

unfoldable pub record_cancel_func : ℕ → ℕ → Requests → Outcome Requests
record_cancel_func fuse_id f c =
    if is_some (c.cancel_funcs fuse_id)
    then panic
    else done (record c { cancel_funcs = update fuse_id (some f) c.cancel_funcs })

-- The context of the op: `none` is the parent context, which the op does not cancel.
unfoldable pub begin_op : ℕ → ℕ → ℕ → Requests → Outcome (Option ℕ × Requests)
unfolding record_cancel_func
begin_op op_code fuse_id ctx c =
    if op_code == op_forget
    then done (none, c)
    else record_cancel_func fuse_id ctx c >>= λ c'. done (some ctx, c')

-- The call of a cancellation function.
abbrev pub cancel : ℕ → Requests → Requests
cancel f c = record c { cancelled = f ∷ c.cancelled }

abbrev pub finish_found : ℕ → Option ℕ → Requests → Outcome Requests
finish_found fuse_id none c = panic
finish_found fuse_id (some f) c =
    done (record (cancel f c) { cancel_funcs = update fuse_id none c.cancel_funcs })

unfoldable pub finish_op : ℕ → ℕ → Requests → Outcome Requests
finish_op op_code fuse_id c =
    if op_code == op_forget then done c else finish_found fuse_id (c.cancel_funcs fuse_id) c

abbrev pub interrupt_found : Option ℕ → Requests → Requests
interrupt_found none c = c
interrupt_found (some f) c = cancel f c

unfoldable pub handle_interrupt : ℕ → Requests → Requests
handle_interrupt fuse_id c = interrupt_found (c.cancel_funcs fuse_id) c
