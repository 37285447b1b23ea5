-- ===== src/Memfs/Handlers/Contents.antt =====
-- The handlers that read and write the contents of a file, on the file system's state.
use fuse.Base.{
  ℕ,
  ◌+◌,
  ◌<◌,
  ◌≡◌,
  ◌≢◌,
  refl,
  Bool,
  true,
  false,
  some,
  length,
  get_elem?,
  get_elem?-set_ne,
  Bytes.{Bytes},
  Word.{two63},
  done,
}
use fuse.Memfs.Inode.{Inode, is_file, write_at, read_at}
use fuse.Memfs.Inode.Invariant.{IsValid}
use fuse.Memfs.Inode.Writes.{read_at-write_at}
use fuse.Memfs.Store.{MemFs, ok, ◌>>=◌, put_inode}
use fuse.Memfs.Store.Access.{Has, get_inode_or_die_lem, put_inode_same}
use fuse.Memfs.Handlers.Files.{write_file, read_file}

write_file_run :
    (clock : ℕ → ℕ) (id : ℕ) (p : Bytes) (off n : ℕ) (x x' : Inode) (fs : MemFs)
    → Has fs id x
    → write_at (clock 0) p off x ≡ done (x', n)
    → write_file clock id p off fs ≡ done (ok fs.write_file_callback, put_inode id x' fs)
unfolding write_file
write_file_run clock id p off n x x' fs h ran =
    rw (get_inode_or_die_lem id x fs h, ◌>>=◌) (rw (ran, ◌>>=◌) refl)

read_file_run :
    (id dst_len off : ℕ) (x : Inode) (got : Bytes) (eof : Bool) (fs : MemFs)
    → Has fs id x
    → read_at dst_len off x ≡ done (got, eof)
    → read_file id dst_len off fs ≡ done (ok (got, fs.read_file_callback), fs)
unfolding read_file
read_file_run id dst_len off x got eof fs h ran =
    rw (get_inode_or_die_lem id x fs h, ◌>>=◌) (rw (ran, ◌>>=◌) refl)

-- `WriteFile` of a valid file of less than 2^63 bytes, up to an end below 2^63, succeeds with the
-- callback for writes; a `ReadFile` at the same place then gives what was written, changes nothing,
-- and has the callback for reads; any other ID has what it had before.
pub read_file-write_file :
    (clock : ℕ → ℕ) (id j : ℕ) (p : Bytes) (off : ℕ) (x : Inode) (fs : MemFs)
    → id ≢ j
    → Has fs id x
    → IsValid x
    → is_file x ≡ true
    → length x.contents < two63
    → off + length p < two63
    → (fs' : MemFs) × (write_file clock id p off fs ≡ done (ok fs.write_file_callback, fs'))
      × (read_file id (length p) off fs' ≡ done (ok (p, fs.read_file_callback), fs'))
      × (get_elem? fs'.inodes j ≡ get_elem? fs.inodes j)
read_file-write_file clock id j p off x fs other h v f small fits =
    let (x', wrote, read) = read_at-write_at (clock 0) p off x v f small fits in
    let fs' : MemFs = put_inode id x' fs in
    (
      fs',
      write_file_run clock id p off (length p) x x' fs h wrote,
      read_file_run id (length p) off x' p false fs' (put_inode_same id x x' fs h) read,
      get_elem?-set_ne fs.inodes id j (some x') other,
    )
