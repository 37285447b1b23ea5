-- ===== src/Memfs/Inode/Writes.antt =====
-- The contents of a file under reads, writes, truncation and allocation.
use fuse.Base.{
  ℕ,
  ◌+◌,
  ◌-◌,
  ◌≤◌,
  ◌<◌,
  ◌≡◌,
  inl,
  inr,
  refl,
  sym,
  ap,
  ◌∙◌,
  true,
  false,
  ◌||◌,
  [],
  ◌++◌,
  length,
  take,
  drop,
  length-take,
  length-drop,
  take-nil,
  drop_of_length-le,
  take-append,
  drop-append,
  Bytes.{Bytes},
  Word.{two63, u64, signed_lt},
  done,
  ltb,
  if◌then◌else◌,
  Bool-cases,
  ltb-eq_true,
  ltb-eq_false,
  arith,
}
use fuse.Memfs.Inode.{Inode, is_file, touch, extended, grow_to, write_at, read_at}
use fuse.Memfs.Inode.Invariant.{IsValid}
use fuse.Memfs.Inode.Contents.{
  byte_at, written, spliced, byte_at-extended, byte_at-spliced, length-extended, length-spliced,
  extended_short, signed_lt-small, store_lem,
}

-- An inode with other contents, of which `Size` is the length.
abbrev pub with_contents : Bytes → Inode → Inode
with_contents c x = record x { contents = c; attrs = record x.attrs { size = length c } }

pub with_contents-IsValid :
    (c : Bytes) (x : Inode) → IsValid x → is_file x ≡ true → IsValid (with_contents c x)
unfolding is_file
with_contents-IsValid c x v f = record {
  mode_bits = v.mode_bits;
  one_kind = v.one_kind;
  size_exact = refl;
  only_dir_entries = v.only_dir_entries;
  offsets = v.offsets;
  unique_names = v.unique_names;
  only_file_contents = λ e. absurd (ground arith);
  only_link_target = v.only_link_target;
  unused_blank = v.unused_blank;
}

pub touch-IsValid : (now : ℕ) (x : Inode) → IsValid x → IsValid (touch now x)
unfolding is_file
touch-IsValid now x v = record {
  mode_bits = v.mode_bits;
  one_kind = v.one_kind;
  size_exact = v.size_exact;
  only_dir_entries = v.only_dir_entries;
  offsets = v.offsets;
  unique_names = v.unique_names;
  only_file_contents = v.only_file_contents;
  only_link_target = v.only_link_target;
  unused_blank = v.unused_blank;
}

-- The `if` that makes room: in a valid file, whose size is the length of its contents, both
-- branches leave the contents extended to the wanted size.
pub room_made :
    (size : ℕ) (x : Inode)
    → IsValid x
    → size < two63
    → length x.contents < two63
    → (if signed_lt (length x.contents) (u64 size) then grow_to (u64 size) x else x)
      ≡ with_contents (extended x.contents size) x
room_made size x v small fits =
    let e : Bytes = extended x.contents size in
    let keep : u64 size ≡ size = omega arith in
    rw (keep, signed_lt-small (length x.contents) size fits small)
      (elim (Bool-cases (ltb (length x.contents) size)) [
        | inl longer ↦
            let more : length x.contents < size = ground arith in
            let new_size : size ≡ length e = omega (arith, length-extended x.contents size) in
            rw longer (λ i. record x { contents = e; attrs = record x.attrs { size = new_size i } })
        | inr there ↦
            let same : x.contents ≡ e = sym (extended_short x.contents size (ground arith)) in
            let old_size : x.attrs.size ≡ length e = v.size_exact ∙ ap length same in
            rw there
              (λ i. record x { contents = same i; attrs = record x.attrs { size = old_size i } })
      ])

-- The file after a write.
after_write : ℕ → Bytes → ℕ → Inode → Inode
after_write now p off x =
    with_contents (spliced p off (extended x.contents (off + length p))) (touch now x)

write_at-after_write :
    (now : ℕ) (p : Bytes) (off : ℕ) (x : Inode)
    → IsValid x
    → is_file x ≡ true
    → length x.contents < two63
    → off + length p < two63
    → write_at now p off x ≡ done (after_write now p off x, length p)
unfolding write_at after_write
write_at-after_write now p off x v f small fits =
    let e : Bytes = extended x.contents (off + length p) in
    let room : off + length p ≤ length e =
      omega (arith, length-extended x.contents (off + length p)) in
    let c : Bytes = spliced p off e in
    let resized : record (with_contents e (touch now x)) { contents = c }
        ≡ with_contents c (touch now x) =
      λ i. record (touch now x) {
        contents = c;
        attrs = record x.attrs { mtime = now; size = sym (length-spliced off p e room) i };
      } in
    rw (f, room_made (off + length p) (touch now x) (touch-IsValid now x v) fits small)
      (store_lem p off (with_contents e (touch now x)) room ∙ ap (λ y. done (y, length p)) resized)

-- A write to a valid file of less than 2^63 bytes, which ends below 2^63, does not panic and writes
-- all. Afterwards every byte is what POSIX wants, holes being zeros, the length is the larger of
-- the old one and the end of the write, the modification time is the current one, and the inode is
-- valid.
pub write_at_lem :
    (now : ℕ) (p : Bytes) (off : ℕ) (x : Inode)
    → IsValid x
    → is_file x ≡ true
    → length x.contents < two63
    → off + length p < two63
    → (x' : Inode) × (write_at now p off x ≡ done (x', length p))
      × IsValid x'
      × ((i : ℕ) → byte_at x'.contents i ≡ written p off x.contents i)
      × (length x'.contents ≡ length x.contents + (off + length p - length x.contents))
      × (x'.attrs.mtime ≡ now)
unfolding after_write is_file
write_at_lem now p off x v f small fits =
    let e : Bytes = extended x.contents (off + length p) in
    let size : length e ≡ length x.contents + (off + length p - length x.contents) =
      length-extended x.contents (off + length p) in
    let room : off + length p ≤ length e = omega arith in
    (
      after_write now p off x,
      write_at-after_write now p off x v f small fits,
      with_contents-IsValid (spliced p off e) (touch now x) (touch-IsValid now x v) f,
      λ i.
          byte_at-spliced off p e i room
          ∙ ground (arith, byte_at-extended x.contents (off + length p) i),
      length-spliced off p e room ∙ size,
      refl,
    )

-- A read of a file of less than 2^63 bytes, at an offset below 2^63, gives the bytes from there on,
-- as many as there are and no more than asked for; it reports the end of the file exactly if that
-- is less than asked for or the offset is behind the end.
pub read_at_lem :
    (dst_len off : ℕ) (x : Inode)
    → is_file x ≡ true
    → length x.contents < two63
    → off < two63
    → read_at dst_len off x
      ≡ done (
        take dst_len (drop off x.contents),
        ltb (length x.contents) (off + dst_len) || ltb (length x.contents) off,
      )
unfolding read_at
read_at_lem dst_len off x f small fits =
    let left = drop off x.contents in
    rw (f, signed_lt-small (length x.contents) off small fits)
      (elim (Bool-cases (ltb (length x.contents) off)) [
        | inl behind ↦
            rw (behind, ltb-eq_true (length x.contents) (off + dst_len) (ground arith))
              (let nothing : left ≡ [] = drop_of_length-le off x.contents (ground arith) in
                rw (nothing, take-nil {A = ℕ} dst_len))
        | inr within ↦ rw within (
            ap (λ e. done (take dst_len left, e))
              (ground (arith, length-take dst_len left, length-drop off x.contents)))
      ])

-- After a write to a valid file of less than 2^63 bytes, which ends below 2^63, a read at its place
-- and of its length gives what was written, without `io.EOF`.
pub read_at-write_at :
    (now : ℕ) (p : Bytes) (off : ℕ) (x : Inode)
    → IsValid x
    → is_file x ≡ true
    → length x.contents < two63
    → off + length p < two63
    → (x' : Inode) × (write_at now p off x ≡ done (x', length p))
      × (read_at (length p) off x' ≡ done (p, false))
unfolding is_file after_write
read_at-write_at now p off x v f small fits =
    let e : Bytes = extended x.contents (off + length p) in
    let c : Bytes = spliced p off e in
    let size : length e ≡ length x.contents + (off + length p - length x.contents) =
      length-extended x.contents (off + length p) in
    let same_size : length c ≡ length e = length-spliced off p e (omega arith) in
    let at : off ≡ length (take off e) = omega (arith, length-take off e) in
    let tail = drop (off + length p) e in
    let read : take (length p) (drop off c) ≡ p =
      ap (take (length p)) (drop-append (take off e) (p ++ tail) off at)
      ∙ take-append p tail (length p) refl in
    (
      after_write now p off x,
      write_at-after_write now p off x v f small fits,
      read_at_lem (length p) off (after_write now p off x) f (omega arith) (omega arith)
          ∙ rw (
            read,
            ltb-eq_false (length c) (off + length p) (omega arith),
            ltb-eq_false (length c) off (omega arith),
          ),
    )
