-- ===== src/Conversions/Requests/Files.antt =====
-- conversions.go: `convertInMessage` on requests on open files.
use fuse.Base.{
  ℕ,
  ◌<◌,
  ◌≤◌,
  ◌≡◌,
  refl,
  ◌∙◌,
  Bool,
  true,
  false,
  [],
  ◌∷◌,
  length,
  take,
  length-take,
  Bytes.{Bytes},
  arith,
  ltb,
  ◌⊎◌,
  inl,
  inr,
  done,
  replicate,
  ◌==◌,
  ◌||◌,
  ◌+◌,
  ◌-◌,
  Bool-cases,
}
use fuse.Kernel.Protocol.{Protocol}
use fuse.Kernel.Layout.{pack, length-pack, field, field-take, field-IsPacked, IsPacked}
use fuse.Kernel.Requests.{read_in_size, write_in_size}
use fuse.Kernel.Requests.Files.{
  OpenIn, ReadIn, WriteIn, ReleaseIn, FlushIn, FsyncIn, FallocateIn, read_in, write_in,
  decode_read_in, decode_write_in,
}
use fuse.Kernel.Requests.Encode
use fuse.Kernel.Requests.Encode.{
  open_in_fields, read_in_fields, write_in_fields, release_in_fields, flush_in_fields,
  fsync_in_fields, fallocate_in_fields,
}
use fuse.Buffer.InMessage
use fuse.Buffer.OutMessage
use fuse.Buffer.OutMessage.{OutMessage}
use fuse.Fuseops.{read_dir}
use fuse.Fuseops.Types.{in_segment}
use fuse.Buffer.InMessage.{InHeader}
use fuse.Conversions.Exchange.{Exchange, ok, panicked, ◌>>=◌, free_buffer, grow_buffer, op_context}
use fuse.Conversions.Incoming.Files.{
  read_buffer, convert_open, convert_read, convert_readdir, convert_release, convert_releasedir,
  convert_write, convert_fsync, convert_flush, convert_fallocate,
}
use fuse.Conversions.Reading.{Holds, read_both, read_only, advanced}
use fuse.Conversions.Gives.{Gives}
use fuse.Conversions.Requests.{
  body, open_file, read, write, release, releasedir, fsync, flush, fallocate,
}
use fuse.Conversions.Requests.Ops.{op, read_dst, room_of}

pub read_in_size_lem : (p : Protocol) → (24 ≤ read_in_size p) × (read_in_size p ≤ 40)
unfolding read_in_size
read_in_size_lem p = ground arith

write_in_size_lem : (p : Protocol) → (24 ≤ write_in_size p) × (write_in_size p ≤ 40)
unfolding write_in_size
write_in_size_lem p = ground arith

-- The two ways to say that there is not enough space behind the message.
get_free_test :
    (n used storage : ℕ) → (n == 0 || ltb (storage - used) n) ≡ (n == 0 || ltb storage (used + n))
get_free_test n used storage = ground arith

read_buffer_lem :
    (v : Bool) (n k : ℕ) (y : Exchange)
    → read_buffer v n (advanced k y) ≡ ok (read_dst v (room_of y) n, advanced k y)
unfolding read_buffer free_buffer InMessage.get_free
read_buffer_lem true n k y = refl
read_buffer_lem false n k y =
    let used = y.incoming.size in
    let storage = length y.incoming.storage in
    elim (Bool-cases (n == 0 || ltb storage (used + n))) [
      | inl none_left ↦ rw (get_free_test n used storage, none_left) refl
      | inr some_left ↦ rw (get_free_test n used storage, some_left) refl
    ]

module _ (v : Bool) (p : Protocol) (h : InHeader) (x : Exchange) where
  pub convert_open_lem :
      (s : OpenIn)
      → IsPacked (open_in_fields s)
      → Holds (body p (open_file s)) x
      → Gives (convert_open h) (op v h (room_of x) (open_file s)) x
  unfolding convert_open op_context
  convert_open_lem s fits r =
      let (ran, empty) =
        read_only (pack (open_in_fields s)) 8 x r (length-pack (open_in_fields s)) (omega arith) in
      (advanced 8 x, rw (ran, ◌>>=◌, Encode.decode_open_in-pack s fits) refl, empty, refl)

  pub convert_release_lem :
      (s : ReleaseIn)
      → IsPacked (release_in_fields s)
      → Holds (body p (release s)) x
      → Gives (convert_release h) (op v h (room_of x) (release s)) x
  unfolding convert_release op_context
  convert_release_lem s fits r =
      let (ran, empty) =
        read_only (pack (release_in_fields s)) 24 x r (length-pack (release_in_fields s))
          (omega arith) in
      (advanced 24 x, rw (ran, ◌>>=◌, Encode.decode_release_in-pack s fits) refl, empty, refl)

  pub convert_releasedir_lem :
      (s : ReleaseIn)
      → IsPacked (release_in_fields s)
      → Holds (body p (releasedir s)) x
      → Gives (convert_releasedir h) (op v h (room_of x) (releasedir s)) x
  unfolding convert_releasedir op_context
  convert_releasedir_lem s fits r =
      let (ran, empty) =
        read_only (pack (release_in_fields s)) 24 x r (length-pack (release_in_fields s))
          (omega arith) in
      (advanced 24 x, rw (ran, ◌>>=◌, Encode.decode_release_in-pack s fits) refl, empty, refl)

  pub convert_fsync_lem :
      (s : FsyncIn)
      → IsPacked (fsync_in_fields s)
      → Holds (body p (fsync s)) x
      → Gives (convert_fsync h) (op v h (room_of x) (fsync s)) x
  unfolding convert_fsync op_context
  convert_fsync_lem s fits r =
      let (ran, empty) =
        read_only (pack (fsync_in_fields s)) 16 x r (length-pack (fsync_in_fields s))
          (omega arith) in
      (advanced 16 x, rw (ran, ◌>>=◌, Encode.decode_fsync_in-pack s fits) refl, empty, refl)

  pub convert_flush_lem :
      (s : FlushIn)
      → IsPacked (flush_in_fields s)
      → Holds (body p (flush s)) x
      → Gives (convert_flush h) (op v h (room_of x) (flush s)) x
  unfolding convert_flush op_context
  convert_flush_lem s fits r =
      let (ran, empty) =
        read_only (pack (flush_in_fields s)) 24 x r (length-pack (flush_in_fields s))
          (omega arith) in
      (advanced 24 x, rw (ran, ◌>>=◌, Encode.decode_flush_in-pack s fits) refl, empty, refl)

  pub convert_fallocate_lem :
      (s : FallocateIn)
      → IsPacked (fallocate_in_fields s)
      → Holds (body p (fallocate s)) x
      → Gives (convert_fallocate h) (op v h (room_of x) (fallocate s)) x
  unfolding convert_fallocate op_context
  convert_fallocate_lem s fits r =
      let (ran, empty) =
        read_only (pack (fallocate_in_fields s)) 32 x r (length-pack (fallocate_in_fields s))
          (omega arith) in
      (advanced 32 x, rw (ran, ◌>>=◌, Encode.decode_fallocate_in-pack s fits) refl, empty, refl)

  cut_length : (n : ℕ) (b : Bytes) → length b ≡ 40 → n ≤ 40 → length (take n b) ≡ n
  cut_length n b same fits = omega (arith, length-take n b)

  pub convert_read_lem :
      (s : ReadIn)
      → IsPacked (read_in_fields s)
      → Holds (body p (read s)) x
      → Gives (convert_read v p h) (op v h (room_of x) (read s)) x
  unfolding convert_read op_context decode_read_in
  convert_read_lem s fits r =
      let n = read_in_size p in
      let (least, most) = read_in_size_lem p in
      let all = pack (read_in_fields s) in
      let (ran, empty) =
        read_only (take n all) n x r (cut_length n all (length-pack (read_in_fields s)) most)
          (omega (arith, least)) in
      let fh : field read_in 0 (take n all) ≡ s.fh =
        field-take read_in 0 n all (omega (arith, least))
        ∙ field-IsPacked (read_in_fields s) 0 fits in
      let offset : field read_in 1 (take n all) ≡ s.offset =
        field-take read_in 1 n all (omega (arith, least))
        ∙ field-IsPacked (read_in_fields s) 1 fits in
      let size : field read_in 2 (take n all) ≡ s.size =
        field-take read_in 2 n all (omega (arith, least))
        ∙ field-IsPacked (read_in_fields s) 2 fits in
      (
        advanced n x,
        rw (ran, ◌>>=◌, size, read_buffer_lem v s.size n x, fh, offset, size) refl,
        empty,
        refl,
      )

  pub convert_write_lem :
      (s : WriteIn) (b : Bytes)
      → IsPacked (write_in_fields s)
      → s.size ≤ length b
      → Holds (body p (write s b)) x
      → Gives (convert_write p h) (op v h (room_of x) (write s b)) x
  unfolding convert_write op_context decode_write_in
  convert_write_lem s b fits whole r =
      let n = write_in_size p in
      let (least, most) = write_in_size_lem p in
      let all = pack (write_in_fields s) in
      let (ran, rest_ran, empty) =
        read_both (take n all) b n x r (cut_length n all (length-pack (write_in_fields s)) most)
          (omega (arith, least)) in
      let fh : field write_in 0 (take n all) ≡ s.fh =
        field-take write_in 0 n all (omega (arith, least))
        ∙ field-IsPacked (write_in_fields s) 0 fits in
      let offset : field write_in 1 (take n all) ≡ s.offset =
        field-take write_in 1 n all (omega (arith, least))
        ∙ field-IsPacked (write_in_fields s) 1 fits in
      let size : field write_in 2 (take n all) ≡ s.size =
        field-take write_in 2 n all (omega (arith, least))
        ∙ field-IsPacked (write_in_fields s) 2 fits in
      let enough : ltb (length b) s.size ≡ false = ground arith in
      (
        advanced (length b) (advanced n x),
        rw (ran, ◌>>=◌, rest_ran, size, enough, fh, offset) refl,
        empty,
        refl,
      )

grow_buffer_lem :
    (n : ℕ) (y : Exchange)
    → ((n ≡ 0) × (grow_buffer n y ≡ panicked))
      ⊎ ((0 < n)
          × ((i : ℕ) × (m : OutMessage) × (OutMessage.grow n y.outgoing ≡ done (i, m))
              × (grow_buffer n y ≡ ok (in_segment i n, record y { outgoing = m }))))
unfolding grow_buffer OutMessage.grow
grow_buffer_lem n y = elim (Bool-cases (n == 0)) [
  | inl none_asked ↦ inl (ground arith, rw (grow_buffer, none_asked) refl)
  | inr some_asked ↦ inr (
    ground arith,
    (
      length (OutMessage.with_header y.outgoing.sglist),
      OutMessage.append y.outgoing (OutMessage.bytes (replicate n 0) ∷ []),
      rw (grow_buffer, some_asked) refl,
      rw (grow_buffer, some_asked) refl,
    ),
  )
]

-- The op of a request to read a directory, with a buffer in the reply, which is grown by it.
abbrev pub GivesBuffer : Protocol → InHeader → Exchange → ReadIn → Type 0
GivesBuffer p h x s =
    (i : ℕ) × (m : OutMessage) × (x' : Exchange) × (OutMessage.grow s.size x.outgoing ≡ done (i, m))
    × (convert_readdir p h x
        ≡ ok (
          read_dir (record {
            inode = h.nodeid;
            handle = s.fh;
            offset = s.offset;
            dst = in_segment i s.size;
            bytes_read = 0;
            op_context = op_context h;
          }),
          x',
        ))
    × Holds [] x'
    × (x'.outgoing ≡ m)

-- On a request to read a directory whose values fit in their fields, `convertInMessage` panics if the
-- size is zero; otherwise it gives the op with the kernel's inode, handle and offset and with a
-- buffer of that size in the reply, which is grown by it, and it reads the message to its end.
pub convert_readdir_lem :
    (p : Protocol) (h : InHeader) (x : Exchange) (s : ReadIn)
    → IsPacked (read_in_fields s)
    → Holds (take (read_in_size p) (pack (read_in_fields s))) x
    → ((s.size ≡ 0) × (convert_readdir p h x ≡ panicked)) ⊎ ((0 < s.size) × GivesBuffer p h x s)
unfolding convert_readdir decode_read_in
convert_readdir_lem p h x s fits r =
    let n = read_in_size p in
    let (least, most) = read_in_size_lem p in
    let all = pack (read_in_fields s) in
    let same : length all ≡ 40 = length-pack (read_in_fields s) in
    let (ran, empty) =
      read_only (take n all) n x r (omega (arith, length-take n all)) (omega (arith, least)) in
    let fh : field read_in 0 (take n all) ≡ s.fh =
      field-take read_in 0 n all (omega (arith, least))
      ∙ field-IsPacked (read_in_fields s) 0 fits in
    let offset : field read_in 1 (take n all) ≡ s.offset =
      field-take read_in 1 n all (omega (arith, least))
      ∙ field-IsPacked (read_in_fields s) 1 fits in
    let size : field read_in 2 (take n all) ≡ s.size =
      field-take read_in 2 n all (omega (arith, least))
      ∙ field-IsPacked (read_in_fields s) 2 fits in
    elim (grow_buffer_lem s.size (advanced n x)) [
      | inl (zero_size, panics) ↦ inl (zero_size, rw (ran, ◌>>=◌, size, panics) refl)
      | inr (pos, (i, m, grows, gives)) ↦ inr (
        pos,
        (
          i,
          m,
          record (advanced n x) { outgoing = m },
          grows,
          rw (ran, ◌>>=◌, size, gives, fh, offset) refl,
          record { valid = empty.valid; left = empty.left },
          refl,
        ),
      )
    ]
