-- ===== src/Conversions/Requests/Buffers.antt =====
-- conversions.go: `convertInMessage` on requests whose replies hold a buffer, and on a SYNCFS.
use fuse.Base.{
  ℕ,
  ◌<◌,
  ◌≡◌,
  refl,
  ◌∙◌,
  Bool,
  Option,
  none,
  some,
  [],
  length,
  take,
  length-take,
  replicate,
  List,
  ◌∷◌,
  ◌++◌,
  Bytes.{Bytes},
  ==-eq_false,
  ◌==◌,
  Bool-cases,
  inl,
  inr,
  arith,
}
use fuse.Kernel.Protocol.{Protocol}
use fuse.Kernel.Layout.{pack, length-pack, field, field-take, field-IsPacked, IsPacked}
use fuse.Kernel.Requests.{read_in_size}
use fuse.Kernel.Requests.Files.{ReadIn, GetxattrIn, ListxattrIn, read_in, decode_read_in}
use fuse.Kernel.Requests.Encode.{
  read_in_fields, getxattr_in_fields, listxattr_in_fields, decode_getxattr_in-pack,
  decode_listxattr_in-pack,
}
use fuse.Buffer.InMessage.{InHeader}
use fuse.Buffer.OutMessage
use fuse.Buffer.OutMessage.{OutMessage, Segment}
use fuse.Fuseops.Types.{in_segment}
use fuse.Conversions.Exchange.{Exchange, ok, ◌>>=◌, grow_buffer, op_context}
use fuse.Conversions.Incoming.Names.{grown, convert_getxattr}
use fuse.Conversions.Incoming.Files.{convert_readdir, convert_listxattr, convert_syncfs}
use fuse.Conversions.Reading.{Holds, name_before_nul_lem, IsName, read_both, read_only, advanced}
use fuse.Conversions.Gives.{Gives, GivesWith}
use fuse.Conversions.Requests.{body, readdir, getxattr, listxattr, sync_fs, c_string}
use fuse.Conversions.Requests.Ops.{op, room_of, reply_dst, segments, with_zeros, with_buffer}
use fuse.Conversions.Requests.Files.{read_in_size_lem}

grow_buffer_at :
    (n : ℕ) (y : Exchange)
    → 0 < n
    → grow_buffer n y
      ≡ ok (
        in_segment (length (OutMessage.with_header y.outgoing.sglist)) n,
        record y {
          outgoing = record y.outgoing {
            sglist = some (
                OutMessage.with_header y.outgoing.sglist
                ++ (OutMessage.bytes (replicate n 0) ∷ []));
          };
        },
      )
unfolding grow_buffer OutMessage.grow OutMessage.append
grow_buffer_at n y pos =
    let some_asked = ==-eq_false n 0 (omega arith) in rw (grow_buffer, some_asked) refl

-- The new segment is behind those that were there.
with_header_lem :
    (n : ℕ) (l : Option (List Segment))
    → (length (OutMessage.with_header l) ≡ segments l)
      × (OutMessage.with_header l ++ (OutMessage.bytes (replicate n 0) ∷ []) ≡ with_zeros n l)
with_header_lem n none = (refl, refl)
with_header_lem n (some l) = (refl, refl)

-- The exchange after the reply has got its buffer.
abbrev pub with_reply : ℕ → Exchange → Exchange
with_reply n y = record y { outgoing = with_buffer n y.outgoing }

grow_buffer_room :
    (n : ℕ) (y : Exchange)
    → 0 < n
    → grow_buffer n y ≡ ok (in_segment (room_of y).segments n, with_reply n y)
grow_buffer_room n y pos =
    let (at, all) = with_header_lem n y.outgoing.sglist in
    let some_asked = ==-eq_false n 0 (omega arith) in
    grow_buffer_at n y pos ∙ rw (at, all, some_asked) refl

grown_room : (n : ℕ) (y : Exchange) → grown n y ≡ ok (reply_dst (room_of y) n, with_reply n y)
unfolding grown
grown_room n y = elim (Bool-cases (n == 0)) [
  | inl none_asked ↦ rw none_asked refl
  | inr some_asked ↦ rw some_asked (grow_buffer_room n y (ground arith) ∙ rw some_asked refl)
]

module _ (v : Bool) (p : Protocol) (h : InHeader) (x : Exchange) where
  pub convert_readdir_room :
      (s : ReadIn)
      → IsPacked (read_in_fields s)
      → 0 < s.size
      → Holds (body p (readdir s)) x
      → GivesWith
          (convert_readdir p h)
          (op v h (room_of x) (readdir s))
          []
          (with_buffer s.size x.outgoing)
          x
  unfolding convert_readdir decode_read_in op_context
  convert_readdir_room s fits pos r =
      let n = read_in_size p in
      let (least, most) = read_in_size_lem p in
      let all = pack (read_in_fields s) in
      let same : length all ≡ 40 = length-pack (read_in_fields s) in
      let (ran, empty) =
        read_only (take n all) n x r (omega (arith, length-take n all)) (omega (arith, least)) in
      let fh : field read_in 0 (take n all) ≡ s.fh =
        field-take read_in 0 n all (omega (arith, least))
        ∙ field-IsPacked (read_in_fields s) 0 fits in
      let offset : field read_in 1 (take n all) ≡ s.offset =
        field-take read_in 1 n all (omega (arith, least))
        ∙ field-IsPacked (read_in_fields s) 1 fits in
      let size : field read_in 2 (take n all) ≡ s.size =
        field-take read_in 2 n all (omega (arith, least))
        ∙ field-IsPacked (read_in_fields s) 2 fits in
      (
        with_reply s.size (advanced n x),
        rw (ran, ◌>>=◌, size, grow_buffer_room s.size (advanced n x) pos, fh, offset) refl,
        record { valid = empty.valid; left = empty.left },
        refl,
      )

  pub convert_getxattr_lem :
      (s : GetxattrIn) (name : Bytes)
      → IsPacked (getxattr_in_fields s)
      → IsName name
      → Holds (body p (getxattr s name)) x
      → GivesWith
          (convert_getxattr h)
          (op v h (room_of x) (getxattr s name))
          []
          (with_buffer s.size x.outgoing)
          x
  unfolding convert_getxattr op_context
  convert_getxattr_lem s name fits is_name r =
      let (ran, rest_ran, empty) =
        read_both (pack (getxattr_in_fields s)) (c_string name) 8 x r
          (length-pack (getxattr_in_fields s)) (omega arith) in
      let x' = advanced (length (c_string name)) (advanced 8 x) in
      (
        with_reply s.size x',
        rw
            (
              ran,
              ◌>>=◌,
              rest_ran,
              name_before_nul_lem name [] x' is_name,
              decode_getxattr_in-pack s fits,
              grown_room s.size x',
            )
            refl,
        record { valid = empty.valid; left = empty.left },
        refl,
      )

  pub convert_listxattr_lem :
      (s : ListxattrIn)
      → IsPacked (listxattr_in_fields s)
      → Holds (body p (listxattr s)) x
      → GivesWith
          (convert_listxattr h)
          (op v h (room_of x) (listxattr s))
          []
          (with_buffer s.size x.outgoing)
          x
  unfolding convert_listxattr op_context
  convert_listxattr_lem s fits r =
      let (ran, empty) =
        read_only (pack (listxattr_in_fields s)) 8 x r (length-pack (listxattr_in_fields s))
          (omega arith) in
      (
        with_reply s.size (advanced 8 x),
        rw (ran, ◌>>=◌, decode_listxattr_in-pack s fits, grown_room s.size (advanced 8 x)) refl,
        record { valid = empty.valid; left = empty.left },
        refl,
      )

  pub convert_syncfs_lem :
      Holds (body p sync_fs) x → Gives (convert_syncfs h) (op v h (room_of x) sync_fs) x
  unfolding convert_syncfs
  convert_syncfs_lem r =
      let (ran, empty) =
        read_only (pack ((8, 0) ∷ [])) 8 x r (length-pack ((8, 0) ∷ [])) (omega arith) in
      (advanced 8 x, rw (ran, ◌>>=◌) refl, empty, refl)
