-- ===== src/Conversions/Requests/Names.antt =====
-- conversions.go: `convertInMessage` on requests with names.
use fuse.Base.{
  ℕ,
  ◌≤◌,
  ◌≡◌,
  refl,
  sym,
  ap,
  ◌∙◌,
  Bool,
  [],
  length,
  length-take,
  take,
  take_of_length-le,
  Bytes.{Bytes},
  arith,
  Bool-cases,
  inl,
  inr,
}
use fuse.Kernel.Protocol.{Protocol, lt, version}
use fuse.Kernel.Layout.{pack, length-pack, field, field-take, field-IsPacked, IsPacked}
use fuse.Kernel.Requests.{mkdir_in_size, mknod_in_size, create_in_size}
use fuse.Kernel.Requests.Names.{
  MkdirIn, MknodIn, CreateIn, mknod_in, create_in, decode_mknod_in, decode_create_in,
}
use fuse.Kernel.Requests.Encode.{
  mkdir_in_fields, mknod_in_fields, create_in_fields, decode_mkdir_in-pack,
}
use fuse.Buffer.InMessage.{InHeader}
use fuse.Conversions.Exchange.{op_context, Exchange, ◌>>=◌}
use fuse.Conversions.Incoming.Names.{
  convert_lookup, convert_unlink, convert_rmdir, convert_removexattr, convert_mkdir, convert_mknod,
  convert_create,
}
use fuse.Conversions.Reading.{
  Holds, IsName, whole_name_lem, name_before_nul_lem, rest_Holds, take_rest-Holds, read_both,
  advanced,
}
use fuse.Conversions.Gives.{Gives}
use fuse.Conversions.Requests.{
  lookup, unlink, rmdir, removexattr, mkdir, mknod, create, c_string, body,
}
use fuse.Conversions.Requests.Ops.{op, room_of}

module _ (v : Bool) (h : InHeader) (x : Exchange) (name : Bytes) (r : Holds (c_string name) x) where
  abbrev ended : Exchange
  ended = advanced (length (c_string name)) x

  pub convert_lookup_lem : Gives (convert_lookup h) (op v h (room_of x) (lookup name)) x
  unfolding convert_lookup op_context
  convert_lookup_lem = (
    ended,
    rw (take_rest-Holds (c_string name) x r, ◌>>=◌, whole_name_lem name ended) refl,
    rest_Holds (c_string name) x r,
    refl,
  )

  pub convert_unlink_lem : Gives (convert_unlink h) (op v h (room_of x) (unlink name)) x
  unfolding convert_unlink op_context
  convert_unlink_lem = (
    ended,
    rw (take_rest-Holds (c_string name) x r, ◌>>=◌, whole_name_lem name ended) refl,
    rest_Holds (c_string name) x r,
    refl,
  )

  pub convert_rmdir_lem : Gives (convert_rmdir h) (op v h (room_of x) (rmdir name)) x
  unfolding convert_rmdir op_context
  convert_rmdir_lem = (
    ended,
    rw (take_rest-Holds (c_string name) x r, ◌>>=◌, whole_name_lem name ended) refl,
    rest_Holds (c_string name) x r,
    refl,
  )

  pub convert_removexattr_lem :
      Gives (convert_removexattr h) (op v h (room_of x) (removexattr name)) x
  unfolding convert_removexattr op_context
  convert_removexattr_lem = (
    ended,
    rw (take_rest-Holds (c_string name) x r, ◌>>=◌, whole_name_lem name ended) refl,
    rest_Holds (c_string name) x r,
    refl,
  )

mkdir_in_size_lem : (p : Protocol) → mkdir_in_size p ≡ 8
unfolding mkdir_in_size
mkdir_in_size_lem p = elim (Bool-cases (lt p (version 7 12))) [
  | inl e ↦ rw e refl
  | inr e ↦ rw e refl
]

mknod_in_size_lem : (p : Protocol) → (8 ≤ mknod_in_size p) × (mknod_in_size p ≤ 16)
unfolding mknod_in_size
mknod_in_size_lem p = ground arith

create_in_size_lem : (p : Protocol) → (8 ≤ create_in_size p) × (create_in_size p ≤ 16)
unfolding create_in_size
create_in_size_lem p = ground arith

cut_length : (n k : ℕ) (b : Bytes) → length b ≡ k → n ≤ k → length (take n b) ≡ n
cut_length n k b same fits = omega (arith, length-take n b)

module _ (v : Bool) (p : Protocol) (h : InHeader) (x : Exchange) where
  pub convert_mkdir_lem :
      (s : MkdirIn) (name : Bytes)
      → IsPacked (mkdir_in_fields s)
      → IsName name
      → Holds (body p (mkdir s name)) x
      → Gives (convert_mkdir p h) (op v h (room_of x) (mkdir s name)) x
  unfolding convert_mkdir op_context
  convert_mkdir_lem s name fits is_name r =
      let n = mkdir_in_size p in
      let eight = mkdir_in_size_lem p in
      let whole : take n (pack (mkdir_in_fields s)) ≡ pack (mkdir_in_fields s) =
        take_of_length-le n (pack (mkdir_in_fields s))
          (omega (arith, eight, length-pack (mkdir_in_fields s))) in
      let (ran, rest_ran, empty) =
        read_both (take n (pack (mkdir_in_fields s))) (c_string name) n x r
          (ap length whole ∙ length-pack (mkdir_in_fields s) ∙ sym eight) (omega (arith, eight)) in
      let x' = advanced (length (c_string name)) (advanced n x) in
      (
        x',
        rw
            (
              ran,
              ◌>>=◌,
              rest_ran,
              name_before_nul_lem name [] x' is_name,
              whole,
              decode_mkdir_in-pack s fits,
            )
            refl,
        empty,
        refl,
      )

  pub convert_mknod_lem :
      (s : MknodIn) (name : Bytes)
      → IsPacked (mknod_in_fields s)
      → IsName name
      → Holds (body p (mknod s name)) x
      → Gives (convert_mknod p h) (op v h (room_of x) (mknod s name)) x
  unfolding convert_mknod op_context decode_mknod_in
  convert_mknod_lem s name fits is_name r =
      let n = mknod_in_size p in
      let (least, most) = mknod_in_size_lem p in
      let all = pack (mknod_in_fields s) in
      let (ran, rest_ran, empty) =
        read_both (take n all) (c_string name) n x r
          (cut_length n 16 all (length-pack (mknod_in_fields s)) most) (omega (arith, least)) in
      let x' = advanced (length (c_string name)) (advanced n x) in
      let mode : field mknod_in 0 (take n all) ≡ s.mode =
        field-take mknod_in 0 n all (omega (arith, least))
        ∙ field-IsPacked (mknod_in_fields s) 0 fits in
      let rdev : field mknod_in 1 (take n all) ≡ s.rdev =
        field-take mknod_in 1 n all (omega (arith, least))
        ∙ field-IsPacked (mknod_in_fields s) 1 fits in
      (
        x',
        rw (ran, ◌>>=◌, rest_ran, name_before_nul_lem name [] x' is_name, mode, rdev) refl,
        empty,
        refl,
      )

  pub convert_create_lem :
      (s : CreateIn) (name : Bytes)
      → IsPacked (create_in_fields s)
      → IsName name
      → Holds (body p (create s name)) x
      → Gives (convert_create p h) (op v h (room_of x) (create s name)) x
  unfolding convert_create op_context decode_create_in
  convert_create_lem s name fits is_name r =
      let n = create_in_size p in
      let (least, most) = create_in_size_lem p in
      let all = pack (create_in_fields s) in
      let (ran, rest_ran, empty) =
        read_both (take n all) (c_string name) n x r
          (cut_length n 16 all (length-pack (create_in_fields s)) most) (omega (arith, least)) in
      let x' = advanced (length (c_string name)) (advanced n x) in
      let mode : field create_in 1 (take n all) ≡ s.mode =
        field-take create_in 1 n all (omega (arith, least))
        ∙ field-IsPacked (create_in_fields s) 1 fits in
      (
        x',
        rw (ran, ◌>>=◌, rest_ran, name_before_nul_lem name [] x' is_name, mode) refl,
        empty,
        refl,
      )
