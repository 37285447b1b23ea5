-- ===== src/Conversions/Panics.antt =====
-- conversions.go: which requests can make `convertInMessage` panic.
use fuse.Base.{
  ℕ,
  zero,
  suc,
  ◌≡◌,
  ◌≢◌,
  inl,
  inr,
  refl,
  ap,
  sym,
  ◌∙◌,
  ◌-◌,
  ◌+◌,
  ◌||◌,
  length-append,
  [],
  ◌∷◌,
  ltb,
  length,
  Bool,
  true,
  false,
  Option,
  none,
  some,
  Bytes.{Bytes},
  ◌==◌,
  Bool-cases,
  arith,
}
use fuse.Kernel.Protocol.{Protocol}
use fuse.Buffer.InMessage
use fuse.Buffer.InMessage.{InHeader, Slice, InMessage}
use fuse.Buffer.OutMessage
use fuse.Conversions.Requests.{c_string}
use fuse.Conversions.Exchange.{
  Exchange, Conversion, ok, corrupt, panicked, M, ◌>>=◌, pure, reject_if, or_reject, index_nul,
  consumed, take_struct, take_rest, whole_name, name_before_nul, grow_buffer, free_buffer,
}
use fuse.Conversions.Incoming.{convert_opcode, convert_found, convert_in_message}
use fuse.Conversions.Incoming.Names.{
  grown, two_names, convert_symlink, convert_lookup, convert_unlink, convert_rmdir,
  convert_removexattr, convert_mkdir, convert_mknod, convert_create, convert_link, convert_getxattr,
  convert_setxattr,
}
use fuse.Conversions.Incoming.Files.{
  read_buffer, convert_open, convert_opendir, convert_read, convert_release, convert_releasedir,
  convert_write, convert_fsync, convert_syncfs, convert_flush, convert_fallocate, convert_listxattr,
}
use fuse.Conversions.Incoming.Inodes.{
  take_entries, convert_getattr, convert_setattr, convert_forget, convert_batch_forget,
  convert_readlink, convert_statfs, convert_interrupt, convert_init, convert_unknown,
}
use fuse.Kernel.Requests.{Opcode, opcode_of, opcode_number}
use fuse.Kernel.Requests.Numbers.{IsNumbered, opcode_of-IsNumbered}
use fuse.Conversions.Reading.{
  take_rest_lem, take_rest-Holds, Holds, IsName, ends_nul-append, index_nul-append,
}

abbrev is_panic : {A : Type 0} → Conversion A → Bool
is_panic (ok a) = false
is_panic corrupt = false
is_panic panicked = true

record NeverPanics {A : Type 0} (m : M A) : Type 0 where
  safe : (x : Exchange) → is_panic (m x) ≡ false

bind_safe :
    {A B : Type 0} {m : M A} {k : A → M B}
    → NeverPanics m
    → ((a : A) → NeverPanics (k a))
    → NeverPanics (m >>= k)
bind_safe {A} {B} {m} {k} first next = record { safe = λ x. settle (m x) (first.safe x) }
  where
    settle :
        (r : Conversion (A × Exchange))
        → is_panic r ≡ false
        → is_panic (elim r as (λ r. Conversion (B × Exchange)) [
          | ok a ↦ k a.0 a.1
          | corrupt ↦ corrupt
          | panicked ↦ panicked
        ])
          ≡ false
    settle (ok a) e = (next a.0).safe a.1
    settle corrupt e = refl
    settle panicked e = e

pure_safe : {A : Type 0} {a : A} → NeverPanics (pure a)
pure_safe = record { safe = λ x. refl }

reject_if_safe : (b : Bool) → NeverPanics (reject_if b)
reject_if_safe true = record { safe = λ x. refl }
reject_if_safe false = record { safe = λ x. refl }

or_reject_safe : {A : Type 0} (o : Option A) → NeverPanics (or_reject o)
or_reject_safe none = record { safe = λ x. refl }
or_reject_safe (some a) = record { safe = λ x. refl }

take_struct_safe : (n : ℕ) → NeverPanics (take_struct n)
unfolding take_struct
take_struct_safe n = record { safe = λ x. settle (consumed x (InMessage.consume n x.incoming)) }
  where
    settle :
        (o : Option (Bytes × Exchange))
        → is_panic
            (elim o as (λ o. Conversion (Bytes × Exchange)) [ none ↦ corrupt | some r ↦ ok r ])
          ≡ false
    settle none = refl
    settle (some r) = refl

take_rest_safe : NeverPanics take_rest
take_rest_safe = record { safe = λ x. ap is_panic (take_rest_lem x) }

whole_name_safe : (b : Bytes) → NeverPanics (whole_name b)
unfolding whole_name
whole_name_safe b = bind_safe (reject_if_safe _) (λ _. pure_safe)

name_before_nul_safe : (b : Bytes) → NeverPanics (name_before_nul b)
unfolding name_before_nul
name_before_nul_safe b = bind_safe (or_reject_safe _) (λ i. pure_safe)

-- The buffer of `OpGetxattr` is grown only for a size that is not zero.
grown_safe : (n : ℕ) → NeverPanics (grown n)
unfolding grown grow_buffer OutMessage.grow
grown_safe n = elim (Bool-cases (n == 0)) [
  | inl zero_size ↦ record { safe = λ x. rw zero_size refl }
  | inr some_size ↦ record { safe = λ x. rw (some_size, grow_buffer, OutMessage.grow) refl }
]

read_buffer_safe : (v : Bool) (n : ℕ) → NeverPanics (read_buffer v n)
unfolding read_buffer free_buffer
read_buffer_safe true n = record { safe = λ x. refl }
read_buffer_safe false n = record { safe = λ x. refl }

take_entries_safe : (n : ℕ) → NeverPanics (take_entries n)
unfolding take_entries
take_entries_safe zero = pure_safe
take_entries_safe (suc n) =
    bind_safe (take_struct_safe _) (λ b. bind_safe (take_entries_safe n) (λ l. pure_safe))

-- The requests whose conversion can index a slice out of its bounds.
can_panic : Opcode → Bool
unfolding opcode_number
can_panic c =
    opcode_number c == opcode_number Opcode.symlink
    || opcode_number c == opcode_number Opcode.rename
    || opcode_number c == opcode_number Opcode.readdir

module _ (v : Bool) (p : Protocol) (h : InHeader) where
  convert_opcode_safe : (c : Opcode) → can_panic c ≡ false → NeverPanics (convert_opcode v p h c)
  unfolding convert_opcode can_panic convert_batch_forget convert_create convert_fallocate
      convert_flush convert_forget convert_fsync convert_getattr convert_getxattr convert_init
      convert_interrupt convert_link convert_listxattr convert_lookup convert_mkdir convert_mknod
      convert_open convert_opendir convert_read convert_readlink convert_release convert_releasedir
      convert_removexattr convert_rmdir convert_setattr convert_setxattr convert_statfs
      convert_syncfs convert_unlink convert_write
  convert_opcode_safe Opcode.lookup e =
      bind_safe take_rest_safe (λ b. bind_safe (whole_name_safe b) (λ name. pure_safe))
  convert_opcode_safe Opcode.forget e = bind_safe (take_struct_safe _) (λ b. pure_safe)
  convert_opcode_safe Opcode.getattr e = pure_safe
  convert_opcode_safe Opcode.setattr e = bind_safe (take_struct_safe _) (λ b. pure_safe)
  convert_opcode_safe Opcode.readlink e = pure_safe
  convert_opcode_safe Opcode.symlink e = cc
  convert_opcode_safe Opcode.mknod e =
      bind_safe (take_struct_safe _) (λ b.
        bind_safe take_rest_safe (λ r. bind_safe (name_before_nul_safe r) (λ name. pure_safe)))
  convert_opcode_safe Opcode.mkdir e =
      bind_safe (take_struct_safe _) (λ b.
        bind_safe take_rest_safe (λ r. bind_safe (name_before_nul_safe r) (λ name. pure_safe)))
  convert_opcode_safe Opcode.unlink e =
      bind_safe take_rest_safe (λ b. bind_safe (whole_name_safe b) (λ name. pure_safe))
  convert_opcode_safe Opcode.rmdir e =
      bind_safe take_rest_safe (λ b. bind_safe (whole_name_safe b) (λ name. pure_safe))
  convert_opcode_safe Opcode.rename e = cc
  convert_opcode_safe Opcode.link e = bind_safe (take_struct_safe _) (λ b.
      bind_safe take_rest_safe (λ r.
        bind_safe (name_before_nul_safe r) (λ name. bind_safe (reject_if_safe _) (λ _. pure_safe))))
  convert_opcode_safe Opcode.open_file e = bind_safe (take_struct_safe _) (λ b. pure_safe)
  convert_opcode_safe Opcode.read e =
      bind_safe (take_struct_safe _) (λ b. bind_safe (read_buffer_safe v _) (λ d. pure_safe))
  convert_opcode_safe Opcode.write e =
      bind_safe (take_struct_safe _)
        (λ b. bind_safe take_rest_safe (λ r. bind_safe (reject_if_safe _) (λ _. pure_safe)))
  convert_opcode_safe Opcode.statfs e = pure_safe
  convert_opcode_safe Opcode.release e = bind_safe (take_struct_safe _) (λ b. pure_safe)
  convert_opcode_safe Opcode.fsync e = bind_safe (take_struct_safe _) (λ b. pure_safe)
  convert_opcode_safe Opcode.setxattr e = bind_safe (take_struct_safe _) (λ b.
      bind_safe take_rest_safe (λ r.
        bind_safe (reject_if_safe (ltb (length r) 3))
          (λ _. bind_safe (or_reject_safe (index_nul r)) (λ i. pure_safe))))
  convert_opcode_safe Opcode.getxattr e = bind_safe (take_struct_safe _) (λ b.
      bind_safe take_rest_safe (λ r.
        bind_safe (name_before_nul_safe r) (λ name. bind_safe (grown_safe _) (λ d. pure_safe))))
  convert_opcode_safe Opcode.listxattr e =
      bind_safe (take_struct_safe _) (λ b. bind_safe (grown_safe _) (λ d. pure_safe))
  convert_opcode_safe Opcode.removexattr e =
      bind_safe take_rest_safe (λ b. bind_safe (whole_name_safe b) (λ name. pure_safe))
  convert_opcode_safe Opcode.flush e = bind_safe (take_struct_safe _) (λ b. pure_safe)
  convert_opcode_safe Opcode.init e = bind_safe (take_struct_safe _) (λ b. pure_safe)
  convert_opcode_safe Opcode.opendir e = pure_safe
  convert_opcode_safe Opcode.readdir e = cc
  convert_opcode_safe Opcode.releasedir e = bind_safe (take_struct_safe _) (λ b. pure_safe)
  convert_opcode_safe Opcode.fsyncdir e = bind_safe (take_struct_safe _) (λ b. pure_safe)
  convert_opcode_safe Opcode.create e =
      bind_safe (take_struct_safe _) (λ b.
        bind_safe take_rest_safe (λ r. bind_safe (name_before_nul_safe r) (λ name. pure_safe)))
  convert_opcode_safe Opcode.interrupt e = bind_safe (take_struct_safe _) (λ b. pure_safe)
  convert_opcode_safe Opcode.batch_forget e =
      bind_safe (take_struct_safe _) (λ b. bind_safe (take_entries_safe _) (λ l. pure_safe))
  convert_opcode_safe Opcode.fallocate e = bind_safe (take_struct_safe _) (λ b. pure_safe)
  convert_opcode_safe Opcode.sync_fs e = bind_safe (take_struct_safe _) (λ b. pure_safe)

  convert_found_safe :
      (c : Option Opcode) (n : ℕ)
      → IsNumbered n c
      → n ≢ opcode_number Opcode.symlink
      → n ≢ opcode_number Opcode.rename
      → n ≢ opcode_number Opcode.readdir
      → NeverPanics (convert_found v p h c)
  unfolding convert_unknown can_panic
  convert_found_safe none n is_c not_symlink not_rename not_readdir = pure_safe
  convert_found_safe (some c) n is_c not_symlink not_rename not_readdir =
      convert_opcode_safe c (ground arith)

-- `convertInMessage` can only panic on requests to make a symbolic link, to rename, or to read a
-- directory: on any other opcode, known or not, and whatever the message holds, it gives an op or an
-- error.
pub convert_in_message_safe :
    (v : Bool) (p : Protocol) (x : Exchange)
    → (InMessage.header x.incoming).opcode ≢ opcode_number Opcode.symlink
    → (InMessage.header x.incoming).opcode ≢ opcode_number Opcode.rename
    → (InMessage.header x.incoming).opcode ≢ opcode_number Opcode.readdir
    → convert_in_message v p x ≢ panicked
unfolding convert_in_message
convert_in_message_safe v p x not_symlink not_rename not_readdir e =
    let h = InMessage.header x.incoming in
    let calm =
      convert_found_safe v p h (opcode_of h.opcode) h.opcode (opcode_of-IsNumbered h.opcode)
        not_symlink not_rename not_readdir in
    let said : true ≡ false = ap is_panic (sym e) ∙ calm.safe x in absurd (cc)

-- Of a symbolic link's name and target, the target is missing when the only NUL is the last byte:
-- `convertInMessage` then panics, instead of giving an error.
pub convert_symlink_panics :
    (h : InHeader) (x : Exchange) (name : Bytes)
    → IsName name
    → Holds (c_string name) x
    → convert_symlink h x ≡ panicked
unfolding convert_symlink two_names
convert_symlink_panics h x name is_name r =
    let b = c_string name in
    let low : (ltb (length b - 1) (length name + 1) || ltb (length b) (length b - 1)) ≡ true =
      ground (arith, length-append name (0 ∷ [])) in
    rw (take_rest-Holds b x r, ◌>>=◌, ends_nul-append name, index_nul-append name [] is_name, low)
      refl
