-- ===== src/Memfs/Inode.antt =====
-- samples/memfs/inode.go: an inode and its methods. A method on `*inode` returns the new inode;
-- `time.Now()` is the argument `now`. An `int64` or `int` is its two's-complement bit pattern, and
-- lengths of slices are below 2^63. A test of one bit of a mode is a test of that binary digit.
pub mod Entries
pub mod Invariant
pub mod Directory
pub mod Contents
pub mod Writes
pub mod Resize
pub mod Listing
pub mod Reader
mod Tests
mod FileTests
use fuse.Base.{
  ℕ,
  suc,
  ◌+◌,
  ◌-◌,
  ◌*◌,
  ◌/◌,
  ◌%◌,
  ◌^◌,
  min,
  Bool,
  true,
  false,
  not,
  ◌&&◌,
  ◌||◌,
  Option,
  none,
  some,
  List,
  [],
  ◌∷◌,
  ◌++◌,
  length,
  get_elem?,
  set,
  take,
  drop,
  replicate,
  Bytes.{Bytes, bytes_eq, copy},
  Word.{u64, is_negative, signed_lt, signed_le},
  Outcome,
  done,
  panic,
  or_panic,
  ◌>>=◌,
  ltb,
  ◌==◌,
  if◌then◌else◌,
}
pub use fuse.Fuseops.Types.{Attributes}
use fuse.Dirent.{Dirent, dt_unknown, write_dirent}

pub record Inode : Type 0 where
  pub name : Bytes
  pub attrs : Attributes
  pub entries : List Dirent
  pub contents : Bytes
  pub target : Bytes
  pub xattrs : List (Bytes × Bytes)

-- `os.ModeDir`, `os.ModeSymlink` and `os.ModePerm`.
abbrev pub mode_dir : ℕ
mode_dir = 2 ^ 31

abbrev pub mode_symlink : ℕ
mode_symlink = 2 ^ 27

abbrev pub mode_perm_count : ℕ
mode_perm_count = 512

-- `m & bit != 0` for a power of two.
abbrev pub has_bit : ℕ → ℕ → Bool
has_bit bit m = m / bit % 2 == 1

unfoldable pub new_inode : ℕ → Attributes → Bytes → Inode
new_inode now attrs name = record {
  name = name;
  attrs = record attrs { mtime = now; crtime = now };
  entries = [];
  contents = [];
  target = [];
  xattrs = [];
}

unfoldable pub is_dir : Inode → Bool
is_dir x = has_bit mode_dir x.attrs.mode

unfoldable pub is_symlink : Inode → Bool
is_symlink x = has_bit mode_symlink x.attrs.mode

unfoldable pub is_file : Inode → Bool
unfolding is_dir is_symlink
is_file x = not (is_dir x || is_symlink x)

-- The index in a list that has one more element at the front.
abbrev pub shifted : Option ℕ → Option ℕ
shifted none = none
shifted (some i) = some (suc i)

-- The first index at which an entry has the name, and the first at which one is unused.
unfoldable pub index_of : Bytes → List Dirent → Option ℕ
index_of name [] = none
index_of name (e ∷ es) =
    let rest = index_of name es in if bytes_eq e.name name then some 0 else shifted rest

abbrev pub is_unused : Dirent → Bool
is_unused e = e.type == dt_unknown

unfoldable pub first_gap : List Dirent → Option ℕ
first_gap [] = none
first_gap (e ∷ es) = let rest = first_gap es in if is_unused e then some 0 else shifted rest

unfoldable pub find_child : Bytes → Inode → Outcome (Option ℕ)
find_child name x = if is_dir x then done (index_of name x.entries) else panic

-- `Len`
unfoldable pub count_used : List Dirent → ℕ
count_used [] = 0
count_used (e ∷ es) = let n = count_used es in if is_unused e then n else suc n

unfoldable pub len : Inode → ℕ
len x = count_used x.entries

-- The inode ID and the type of the child.
child_at : List Dirent → Option ℕ → Outcome (Option (ℕ × ℕ))
child_at es none = done none
child_at es (some i) = do e ← or_panic (get_elem? es i); done (some (e.inode, e.type))

unfoldable pub look_up_child : Bytes → Inode → Outcome (Option (ℕ × ℕ))
unfolding find_child child_at
look_up_child name x = find_child name x >>= child_at x.entries

abbrev pub touch : ℕ → Inode → Inode
touch now x = record x { attrs = record x.attrs { mtime = now } }

-- The entry at an index has that index plus one for its offset.
abbrev pub entry_at : ℕ → ℕ → Bytes → ℕ → Dirent
entry_at i id name dt = record { offset = suc i; inode = id; name = name; type = dt }

-- The entries after `AddChild`: in the first gap, or at the end.
unfoldable pub add_entry : ℕ → Bytes → ℕ → List Dirent → List Dirent
add_entry id name dt es = elim (first_gap es) [
  | some i ↦ set es i (entry_at i id name dt)
  | none ↦ es ++ entry_at (length es) id name dt ∷ []
]

unfoldable pub add_child : ℕ → ℕ → Bytes → ℕ → Inode → Inode
unfolding add_entry
add_child now id name dt x = record x {
  attrs = record x.attrs { mtime = now };
  entries = add_entry id name dt x.entries;
}

abbrev pub unused_at : ℕ → Dirent
unused_at i = record { offset = suc i; inode = 0; name = []; type = dt_unknown }

unfoldable pub remove_child : ℕ → Bytes → Inode → Outcome Inode
unfolding find_child
remove_child now name x = do
  i ← or_panic (← find_child name x)
  done
      (record x { attrs = record x.attrs { mtime = now }; entries = set x.entries i (unused_at i) })

-- The loop of `ReadDir` over the entries that are left: `n` bytes of the buffer are written.
unfoldable pub read_entries : Bytes → ℕ → List Dirent → Bytes × ℕ
read_entries buf n [] = (buf, n)
read_entries buf n (e ∷ es) = elim (is_unused e) [
  | true ↦ read_entries buf n es
  | false ↦
      let (tail, written) = write_dirent (drop n buf) e in
      elim (written == 0) [
        | true ↦ (buf, n)
        | false ↦ read_entries (take n buf ++ tail) (n + written) es
      ]
]

-- An index below zero panics.
unfoldable pub read_dir : Bytes → ℕ → Inode → Outcome (Bytes × ℕ)
unfolding is_dir
read_dir buf offset x =
    if not (is_dir x)
    then panic
    else if is_negative offset
    then panic
    else done (read_entries buf 0 (drop offset x.entries))

-- The bytes read, and whether the error is `io.EOF`.
unfoldable pub read_at : ℕ → ℕ → Inode → Outcome (Bytes × Bool)
read_at dst_len off x =
    if not (is_file x)
    then panic
    else if signed_lt (length x.contents) off
    then done ([], true)
    else if ltb (length x.contents) off
    then panic
    else (let got = take dst_len (drop off x.contents) in done (got, ltb (length got) dst_len))

-- Zeros behind the contents, up to `size` bytes.
abbrev pub extended : Bytes → ℕ → Bytes
extended contents size = contents ++ replicate (size - length contents) 0

-- The `copy` into the contents and the check of its result.
unfoldable pub store : Bytes → ℕ → Inode → Outcome (Inode × ℕ)
store p off x =
    if ltb (length x.contents) off
    then panic
    else (let (contents, n) = copy off p x.contents in
        if n == length p then done (record x { contents = contents }, n) else panic)

-- `Size` is set beside the contents.
abbrev pub grow_to : ℕ → Inode → Inode
grow_to size x = record x {
  contents = extended x.contents size;
  attrs = record x.attrs { size = size };
}

unfoldable pub write_at : ℕ → Bytes → ℕ → Inode → Outcome (Inode × ℕ)
write_at now p off x =
    if not (is_file x)
    then panic
    else (let new_len = u64 (off + length p) in
        store p off (
          if signed_lt (length x.contents) new_len
          then grow_to new_len (touch now x)
          else touch now x))

unfoldable pub set_size : ℕ → Inode → Outcome Inode
set_size size x =
    if signed_le size (length x.contents)
    then if is_negative size
      then panic
      else done
          (record x { contents = take size x.contents; attrs = record x.attrs { size = size } })
    else done (grow_to size x)

-- `Mode &= ^ModePerm; Mode |= mode & ModePerm`.
abbrev pub with_perm : ℕ → ℕ → ℕ
with_perm old mode = old - old % mode_perm_count + mode % mode_perm_count

abbrev pub set_mode : Option ℕ → Inode → Inode
set_mode none x = x
set_mode (some mode) x = record x { attrs = record x.attrs { mode = with_perm x.attrs.mode mode } }

abbrev pub set_mtime : Option ℕ → Inode → Inode
set_mtime none x = x
set_mtime (some mtime) x = touch mtime x

abbrev pub truncate : Option ℕ → Inode → Outcome Inode
truncate none x = done x
truncate (some size) x = set_size size x

unfoldable pub set_attributes : ℕ → Option ℕ → Option ℕ → Option ℕ → Inode → Outcome Inode
set_attributes now size mode mtime x = do
  x' ← truncate size (touch now x)
  done (set_mtime mtime (set_mode mode x'))

-- `none` is `ENOSYS`, with the inode unchanged.
unfoldable pub fallocate : ℕ → ℕ → ℕ → Inode → Option Inode
fallocate mode offset length_ x =
    if mode == 0
    then (let new_size = u64 (offset + length_) in
        some (if signed_lt (length x.contents) new_size then grow_to new_size x else x))
    else none
