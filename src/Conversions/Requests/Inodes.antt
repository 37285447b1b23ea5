-- ===== src/Conversions/Requests/Inodes.antt =====
-- conversions.go: `convertInMessage` on requests on inodes, and for the library itself.
use fuse.Base.{
  ◌<◌, ◌≡◌, ◌≤◌, ◌/◌, ◌%◌, ℕ, true, false, ap, ◌^◌, refl, Bool, List, [], ◌∷◌, All, length, arith,
}
use fuse.Kernel.Protocol.{Protocol}
use fuse.Kernel.Layout.{pack, length-pack, IsPacked}
use fuse.Kernel.Requests.Names.{
  ForgetIn, BatchForgetCountIn, BatchForgetEntryIn, InterruptIn, InitIn,
}
use fuse.Kernel.Requests.Files.{SetattrIn}
use fuse.Kernel.Requests.Encode
use fuse.Kernel.Requests.Encode.{
  setattr_in_fields, forget_in_fields, interrupt_in_fields, init_in_fields,
  batch_forget_count_in_fields, batch_forget_entry_in_fields,
}
use fuse.Buffer.InMessage.{InHeader}
use fuse.Conversions.Exchange.{ok, op_context, Exchange, ◌>>=◌}
use fuse.Conversions.Incoming.Inodes.{
  given, convert_setattr, convert_forget, convert_interrupt, convert_init, take_entries,
  convert_batch_forget,
}
use fuse.Conversions.Reading.{Holds, read_only, take_struct_lem, advanced}
use fuse.Conversions.Gives.{Gives}
use fuse.Fuseops.{set_inode_attributes}
use fuse.Fuseops.Types.{zero_attributes}
use fuse.Fuseops.Inodes.{SetInodeAttributesOp}
use fuse.Conversions.{convert_file_mode}
use fuse.Conversions.Requests.{
  Given, bit, valid_of, body, setattr, forget, interrupt, init, batch_forget, entries_bytes,
}
use fuse.Conversions.Requests.Ops.{if_given, setattr_op, asker, op, entries, room_of}

bit_le : (b : Bool) → bit b ≤ 1
bit_le true = omega arith
bit_le false = omega arith

-- A bit of `Valid`, and the field that is given by it.
given_lem :
    {A : Type 0} (place valid : ℕ) (b : Bool) (a : A)
    → valid / place % 2 ≡ bit b
    → given place valid a ≡ if_given b a
given_lem place valid true a same = rw same refl
given_lem place valid false a same = rw same refl

-- The fields that are given are those whose bits are set.
setattr_op_lem :
    (h : InHeader) (s : SetattrIn) (g : Given)
    → s.valid ≡ valid_of g
    → ◌≡◌ {A = SetInodeAttributesOp}
        (record {
          inode = h.nodeid;
          handle = given (2 ^ 6) s.valid s.fh;
          uid = given (2 ^ 1) s.valid s.uid;
          gid = given (2 ^ 2) s.valid s.gid;
          size = given (2 ^ 3) s.valid s.size;
          mode = given (2 ^ 0) s.valid (convert_file_mode s.mode);
          atime = given (2 ^ 4) s.valid (s.atime, s.atime_nsec);
          mtime = given (2 ^ 5) s.valid (s.mtime, s.mtime_nsec);
          attributes = zero_attributes;
          attributes_expiration = 0;
          op_context = asker h;
        })
        (setattr_op h s g)
setattr_op_lem h s g e =
    let mode_bit = bit_le g.mode in
    let uid_bit = bit_le g.uid in
    let gid_bit = bit_le g.gid in
    let size_bit = bit_le g.size in
    let atime_bit = bit_le g.atime in
    let mtime_bit = bit_le g.mtime in
    let handle_bit = bit_le g.handle in
    λ i. record {
      inode = h.nodeid;
      handle = given_lem 64 s.valid g.handle s.fh (omega arith) i;
      uid = given_lem 2 s.valid g.uid s.uid (omega arith) i;
      gid = given_lem 4 s.valid g.gid s.gid (omega arith) i;
      size = given_lem 8 s.valid g.size s.size (omega arith) i;
      mode = given_lem 1 s.valid g.mode (convert_file_mode s.mode) (omega arith) i;
      atime = given_lem 16 s.valid g.atime (s.atime, s.atime_nsec) (omega arith) i;
      mtime = given_lem 32 s.valid g.mtime (s.mtime, s.mtime_nsec) (omega arith) i;
      attributes = zero_attributes;
      attributes_expiration = 0;
      op_context = asker h;
    }

module _ (v : Bool) (p : Protocol) (h : InHeader) (x : Exchange) where
  pub convert_setattr_lem :
      (s : SetattrIn) (g : Given)
      → IsPacked (setattr_in_fields s)
      → s.valid ≡ valid_of g
      → Holds (body p (setattr s g)) x
      → Gives (convert_setattr h) (op v h (room_of x) (setattr s g)) x
  unfolding convert_setattr op_context
  convert_setattr_lem s g fits valid r =
      let (ran, empty) =
        read_only (pack (setattr_in_fields s)) 88 x r (length-pack (setattr_in_fields s))
          (omega arith) in
      (
        advanced 88 x,
        rw (ran, ◌>>=◌, Encode.decode_setattr_in-pack s fits)
            (ap (λ o. ok (set_inode_attributes o, advanced 88 x)) (setattr_op_lem h s g valid)),
        empty,
        refl,
      )

  pub convert_forget_lem :
      (s : ForgetIn)
      → IsPacked (forget_in_fields s)
      → Holds (body p (forget s)) x
      → Gives (convert_forget h) (op v h (room_of x) (forget s)) x
  unfolding convert_forget op_context
  convert_forget_lem s fits r =
      let (ran, empty) =
        read_only (pack (forget_in_fields s)) 8 x r (length-pack (forget_in_fields s))
          (omega arith) in
      (advanced 8 x, rw (ran, ◌>>=◌, Encode.decode_forget_in-pack s fits) refl, empty, refl)

  pub convert_interrupt_lem :
      (s : InterruptIn)
      → IsPacked (interrupt_in_fields s)
      → Holds (body p (interrupt s)) x
      → Gives (convert_interrupt) (op v h (room_of x) (interrupt s)) x
  unfolding convert_interrupt op_context
  convert_interrupt_lem s fits r =
      let (ran, empty) =
        read_only (pack (interrupt_in_fields s)) 8 x r (length-pack (interrupt_in_fields s))
          (omega arith) in
      (advanced 8 x, rw (ran, ◌>>=◌, Encode.decode_interrupt_in-pack s fits) refl, empty, refl)

  pub convert_init_lem :
      (s : InitIn)
      → IsPacked (init_in_fields s)
      → Holds (body p (init s)) x
      → Gives (convert_init) (op v h (room_of x) (init s)) x
  unfolding convert_init op_context
  convert_init_lem s fits r =
      let (ran, empty) =
        read_only (pack (init_in_fields s)) 16 x r (length-pack (init_in_fields s)) (omega arith) in
      (advanced 16 x, rw (ran, ◌>>=◌, Encode.decode_init_in-pack s fits) refl, empty, refl)

-- The loop reads the entries that were announced.
take_entries_lem :
    (l : List BatchForgetEntryIn) (x : Exchange)
    → All (λ e. IsPacked (batch_forget_entry_in_fields e)) l
    → Holds (entries_bytes l) x
    → Gives (take_entries (length l)) (entries l) x
unfolding take_entries
take_entries_lem [] x fits r = (x, refl, r, refl)
take_entries_lem (e ∷ l) x fits r =
    let (ran, left) =
      take_struct_lem (pack (batch_forget_entry_in_fields e)) (entries_bytes l) 16 x r
        (length-pack (batch_forget_entry_in_fields e)) (omega arith) in
    let (x', rest, empty, same) = take_entries_lem l (advanced 16 x) fits.1 left in
    (x', rw (ran, ◌>>=◌, rest, Encode.decode_batch_forget_entry_in-pack e fits.0) refl, empty, same)

pub convert_batch_forget_lem :
    (v : Bool) (p : Protocol) (h : InHeader) (x : Exchange) (l : List BatchForgetEntryIn)
    → length l < 256 ^ 4
    → All (λ e. IsPacked (batch_forget_entry_in_fields e)) l
    → Holds (body p (batch_forget l)) x
    → Gives (convert_batch_forget h) (op v h (room_of x) (batch_forget l)) x
unfolding convert_batch_forget op_context
convert_batch_forget_lem v p h x l few fits r =
    let count : BatchForgetCountIn = record { count = length l } in
    let packed : IsPacked (batch_forget_count_in_fields count) = (few, (omega arith, tt)) in
    let (ran, left) =
      take_struct_lem (pack (batch_forget_count_in_fields count)) (entries_bytes l) 8 x r
        (length-pack (batch_forget_count_in_fields count)) (omega arith) in
    let (x', rest, empty, same) = take_entries_lem l (advanced 8 x) fits left in
    (
      x',
      rw (ran, ◌>>=◌, Encode.decode_batch_forget_count_in-pack count packed, rest) refl,
      empty,
      same,
    )
