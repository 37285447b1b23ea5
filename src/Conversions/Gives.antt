-- ===== src/Conversions/Gives.antt =====
-- conversions.go: what `convertInMessage` makes of a request that is known: an op, with the message
-- read but for what the op does not need, and with the reply as the op needs it.
use fuse.Base.{◌≡◌, [], Bytes.{Bytes}}
use fuse.Buffer.OutMessage.{OutMessage}
use fuse.Conversions.Exchange.{Exchange, ok, M}
use fuse.Conversions.Reading.{Holds}

-- `left` is what is left of the message, and `reply` the message for the reply; the storage of the
-- message read stays as it is.
abbrev pub GivesWith : {A : Type 0} → M A → A → Bytes → OutMessage → Exchange → Type 0
GivesWith m a left reply x =
    (x' : Exchange) × (m x ≡ ok (a, x'))
    × Holds left x'
    × (◌≡◌ {A = OutMessage × Bytes} (x'.outgoing, x'.incoming.storage) (reply, x.incoming.storage))

-- All is read, and the reply is left alone.
abbrev pub Gives : {A : Type 0} → M A → A → Exchange → Type 0
Gives m a x = GivesWith m a [] x.outgoing x
