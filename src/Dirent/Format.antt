-- ===== src/Dirent/Format.antt =====
-- What `WriteDirent` writes.
use fuse.Base.{
  ℕ,
  zero,
  suc,
  ◌+◌,
  ◌*◌,
  ◌/◌,
  ◌≤◌,
  ◌≡◌,
  refl,
  ap,
  ap₂,
  ◌∙◌,
  append-nil,
  ==-eq_false,
  [],
  ◌++◌,
  append_assoc,
  length,
  drop,
  replicate,
  length-append,
  length-replicate,
  drop-drop,
  length-drop,
  Bytes.{Bytes, to_le, length-to_le, copy, copy-append},
  Word.{u64, u32},
  ltb,
  if◌then◌else◌,
  Bool-cases,
  inl,
  inr,
  arith,
}
use fuse.Dirent.{Dirent, dirent_size, pad_len, total_len, fuse_dirent, write_parts, write_dirent}

-- The struct, the name, and zeros up to the next multiple of 8.
abbrev pub encode : Dirent → Bytes
encode d = fuse_dirent d ++ (d.name ++ replicate (pad_len d.name) 0)

pub length-fuse_dirent : (d : Dirent) → length (fuse_dirent d) ≡ dirent_size
unfolding fuse_dirent
length-fuse_dirent d =
    let a = to_le 8 (u64 d.inode) in
    let b = to_le 8 (u64 d.offset) in
    let c = to_le 4 (u32 (length d.name)) in
    let t = to_le 4 (u32 d.type) in
    omega (
      arith,
      length-append a (b ++ (c ++ t)),
      length-append b (c ++ t),
      length-append c t,
      length-to_le 8 (u64 d.inode),
      length-to_le 8 (u64 d.offset),
      length-to_le 4 (u32 (length d.name)),
      length-to_le 4 (u32 d.type),
    )

pub length-encode : (d : Dirent) → length (encode d) ≡ total_len d
length-encode d = omega (
  arith,
  length-fuse_dirent d,
  length-append (fuse_dirent d) (d.name ++ replicate (pad_len d.name) 0),
  length-append d.name (replicate (pad_len d.name) 0),
  length-replicate {A = ℕ} (pad_len d.name) 0,
)

-- The sizes of the parts are rounded up to the next multiple of 8.
abbrev pub rounded : ℕ → ℕ
rounded n = (n + 7) / 8 * 8

pub total_len_lem : (d : Dirent) → total_len d ≡ rounded (24 + length d.name)
unfolding pad_len
total_len_lem d = ground arith

-- The three copies, where there is room for them.
module _ (buf header name : Bytes) where
  abbrev behind_name : Bytes
  behind_name = drop (length name) (drop (length header) buf)

  copy_header :
      length header ≤ length buf
      → copy 0 header buf ≡ (header ++ drop (length header) buf, length header)
  copy_header room = copy-append 0 [] header buf refl room

  copy_name :
      length header + length name ≤ length buf
      → copy (length header) name (header ++ drop (length header) buf)
        ≡ (header ++ (name ++ behind_name), length name)
  copy_name room =
      copy-append (length header) header name (drop (length header) buf) refl
        (omega (arith, length-drop (length header) buf))

  copy_padding :
      (pad : ℕ)
      → length header + length name + pad ≤ length buf
      → copy (length header + length name) (replicate pad 0) (header ++ (name ++ behind_name))
        ≡ (header ++ (name ++ (replicate pad 0 ++ drop pad behind_name)), pad)
  copy_padding pad room =
      let at : length header + length name ≡ length (header ++ name) =
        omega (arith, length-append header name) in
      let left : length (replicate {A = ℕ} pad 0) ≤ length behind_name = omega (
        arith,
        length-replicate {A = ℕ} pad 0,
        length-drop (length header) buf,
        length-drop (length name) (drop (length header) buf),
      ) in
      rw (← append_assoc header name behind_name) (
        copy-append _ (header ++ name) (replicate pad 0) behind_name at left
        ∙ rw (length-replicate {A = ℕ} pad 0, append_assoc header name))

  behind_all : (pad : ℕ) → drop pad behind_name ≡ drop (length header + length name + pad) buf
  behind_all pad =
      drop-drop pad (length name) (drop (length header) buf)
      ∙ drop-drop (length name + pad) (length header) buf
      ∙ ap (λ k. drop k buf) {x = length header + (length name + pad)}
          {y = length header + length name + pad} (omega arith)

  write_parts_lem :
      (pad : ℕ)
      → length header + length name + pad ≤ length buf
      → write_parts buf header name pad ≡ (
        (header ++ (name ++ replicate pad 0)) ++ drop (length header + length name + pad) buf,
        length header + length name + pad,
      )
  unfolding write_parts
  write_parts_lem zero room =
      rw (copy_header (omega arith), copy_name (omega arith), ← behind_all 0)
        (ap₂ (λ (a : Bytes) (k : ℕ). (a, k)) (simp (append_assoc, append-nil)) (omega arith))
  write_parts_lem (suc pad) room =
      rw
        (
          copy_header (omega arith),
          copy_name (omega arith),
          copy_padding (suc pad) room,
          ==-eq_false (suc pad) 0 (omega arith),
          ← behind_all (suc pad),
        )
        (ap (λ a. (a, length header + length name + suc pad)) (simp append_assoc))

-- An entry that fits is written in full at the front of the buffer, and the bytes behind it are
-- left alone; otherwise nothing is written and the result is 0.
pub write_dirent_lem :
    (buf : Bytes) (d : Dirent)
    → write_dirent buf d ≡ (
        if ltb (length buf) (total_len d)
        then (buf, 0)
        else (encode d ++ drop (total_len d) buf, total_len d))
unfolding write_dirent
write_dirent_lem buf d = elim (Bool-cases (ltb (length buf) (total_len d))) [
  | inl full ↦ rw full
  | inr room ↦
      let h = length-fuse_dirent d in
      rw room (
        write_parts_lem buf (fuse_dirent d) d.name (pad_len d.name) (ground arith)
        ∙ ap (λ k. (encode d ++ drop k buf, k)) {y = total_len d} (omega (arith, h)))
]
