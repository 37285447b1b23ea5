-- ===== src/Dirent.antt =====
-- fuseutil/dirent.go: the entries of a directory in the layout of `fuse_dirent`.
pub mod Format
pub mod Parsing
mod Tests
use fuse.Base.{
  ℕ,
  ◌+◌,
  ◌-◌,
  ◌%◌,
  ◌++◌,
  length,
  replicate,
  Bytes.{Bytes, to_le, copy},
  Word.{u64, u32},
  ltb,
  ◌==◌,
  if◌then◌else◌,
}

-- `DirentType`, with the numbers of the Linux `DT_` constants.
abbrev pub dt_unknown : ℕ
dt_unknown = 0

abbrev pub dt_directory : ℕ
dt_directory = 4

abbrev pub dt_file : ℕ
dt_file = 8

abbrev pub dt_link : ℕ
dt_link = 10

pub record Dirent : Type 0 where
  pub offset : ℕ  -- uint64
  pub inode : ℕ  -- uint64
  pub name : Bytes
  pub type : ℕ  -- uint32

abbrev pub dirent_alignment : ℕ
dirent_alignment = 8

abbrev pub dirent_size : ℕ
dirent_size = 24

unfoldable pub pad_len : Bytes → ℕ
pad_len name =
    if length name % dirent_alignment == 0
    then 0
    else dirent_alignment - length name % dirent_alignment

abbrev pub total_len : Dirent → ℕ
total_len d = dirent_size + length d.name + pad_len d.name

-- The struct `fuse_dirent` in host order, which is little-endian.
unfoldable pub fuse_dirent : Dirent → Bytes
fuse_dirent d =
    to_le 8 (u64 d.inode)
    ++ (to_le 8 (u64 d.offset) ++ (to_le 4 (u32 (length d.name)) ++ to_le 4 (u32 d.type)))

-- The header, the name and `pad` zeros, each by a `copy` behind the last.
unfoldable pub write_parts : Bytes → Bytes → Bytes → ℕ → Bytes × ℕ
write_parts buf header name pad =
    let (buf₁, n₁) = copy 0 header buf in
    let (buf₂, n₂) = copy n₁ name buf₁ in
    let (buf₃, n₃) = copy (n₁ + n₂) (replicate pad 0) buf₂ in
    if pad == 0 then (buf₂, n₁ + n₂) else (buf₃, n₁ + n₂ + n₃)

-- The new contents of the buffer, and the number of bytes written.
unfoldable pub write_dirent : Bytes → Dirent → Bytes × ℕ
write_dirent buf d =
    if ltb (length buf) (total_len d)
    then (buf, 0)
    else write_parts buf (fuse_dirent d) d.name (pad_len d.name)
