-- ===== src/Connection/Messages.antt =====
-- freelists.go, and `readMessage` and `writeMessage` of connection.go. A message on a freelist is the
-- value that its pointer leads to, since whoever puts it back does not use it any more. The device is
-- the list of what its calls of `Read` will give, and `none` says that the loop still waits.
pub mod Reading
use fuse.Base.{ℕ, Option, none, some, List, [], ◌∷◌, length, ◌==◌, ◌⊎◌, inl, inr, if◌then◌else◌}
use fuse.Freelist
use fuse.Freelist.{Freelist}
use fuse.Buffer.InMessage
use fuse.Buffer.InMessage.{InMessage, ReadResult, InitError, reader, new_in_message}
use fuse.Buffer.OutMessage.{OutMessage, reset, zero_header}

-- The freelists of a connection.
pub record Pools : Type 0 where
  pub in_messages : Freelist InMessage
  pub out_messages : Freelist OutMessage

-- `new(buffer.OutMessage)`
abbrev pub new_out_message : OutMessage
new_out_message = record { header = zero_header; sglist = none }

abbrev pub or_else : {A : Type 0} → A → Option A → A
or_else a none = a
or_else a (some x) = x

unfoldable pub get_in_message : ℕ → Pools → InMessage × Pools
get_in_message page_size c =
    let (x, l) = Freelist.get c.in_messages in
    (or_else (new_in_message page_size) x, record c { in_messages = l })

unfoldable pub put_in_message : InMessage → Pools → Pools
put_in_message x c = record c { in_messages = Freelist.put x c.in_messages }

unfoldable pub get_out_message : Pools → OutMessage × Pools
get_out_message c =
    let (x, l) = Freelist.get c.out_messages in
    (reset (or_else new_out_message x), record c { out_messages = l })

unfoldable pub put_out_message : OutMessage → Pools → Pools
put_out_message x c = record c { out_messages = Freelist.put x c.out_messages }

-- An `*os.PathError` with `ENODEV` or `EINTR`, or another error.
pub data DevError : Type 0 where
  hung_up : DevError
  interrupted : DevError
  other : ℕ → DevError

pub data ReadError : Type 0 where
  end_of_file : ReadError
  init_error : InitError DevError → ReadError

-- What an attempt calls for: another one, an error for the caller, or the message.
pub data Verdict : Type 0 where
  again : Verdict
  give_up : ReadError → Verdict
  accepted : Verdict

abbrev pub verdict : Option (InitError DevError) → Verdict
verdict none = accepted
verdict (some (reader hung_up)) = give_up end_of_file
verdict (some (reader interrupted)) = again
verdict (some e) = give_up (init_error e)

-- The message after the last attempt, the error, and what the device still holds.
abbrev pub Reading : Type 0
Reading = InMessage × Option ReadError × List (ReadResult DevError)

-- What an attempt leads to; `more` is what the following attempts give.
abbrev pub conclude :
    Verdict → InMessage → List (ReadResult DevError) → Option Reading → Option Reading
conclude again m rs more = more
conclude (give_up e) m rs more = some (m, some e, rs)
conclude accepted m rs more = some (m, none, rs)

unfoldable pub attempts : List (ReadResult DevError) → InMessage → Option Reading
attempts [] m = none
attempts (r ∷ rs) m =
    let (m', e) = InMessage.init m r in let more = attempts rs m' in conclude (verdict e) m' rs more

-- On an error the message goes back to its list.
abbrev pub settle :
    Pools → Option Reading → Option ((InMessage ⊎ ReadError) × Pools × List (ReadResult DevError))
settle c none = none
settle c (some (m, none, rs)) = some (inl m, c, rs)
settle c (some (m, some e, rs)) = some (inr e, put_in_message m c, rs)

unfoldable pub read_message :
    ℕ
    → List (ReadResult DevError)
    → Pools
    → Option ((InMessage ⊎ ReadError) × Pools × List (ReadResult DevError))
read_message page_size rs c = let (m, c') = get_in_message page_size c in settle c' (attempts rs m)

-- The error of `syscall.Write`, or a wrong count.
pub data WriteError : Type 0 where
  write_failed : ℕ → WriteError
  short_write : ℕ → ℕ → WriteError

unfoldable pub write_message : ℕ ⊎ ℕ → List ℕ → Option WriteError
write_message (inl errno) msg = some (write_failed errno)
write_message (inr n) msg = if n == length msg then none else some (short_write n (length msg))
