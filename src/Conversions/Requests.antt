-- ===== src/Conversions/Requests.antt =====
-- The kernel's side of conversions.go: the requests with the values of their structures, and the
-- bytes that follow the header of each. They are all that `convertInMessage` has a case for. Ops has
-- the op that each stands for.
pub mod Ops
pub mod Names
pub mod Pairs
pub mod Files
pub mod Buffers
pub mod Inodes
pub mod Convert
use fuse.Base.{
  ℕ,
  ◌<◌,
  ◌+◌,
  ◌*◌,
  if◌then◌else◌,
  ◌≤◌,
  ◌≡◌,
  ◌≢◌,
  Bool,
  true,
  false,
  List,
  [],
  ◌∷◌,
  ◌++◌,
  length,
  take,
  zero,
  suc,
  Bytes.{Bytes},
  none,
  ◌^◌,
  All,
}
use fuse.Kernel.Protocol.{Protocol, version, lt}
use fuse.Kernel.Layout.{pack, IsPacked}
use fuse.Kernel.Requests
use fuse.Kernel.Requests.{
  Opcode, mkdir_in_size, mknod_in_size, create_in_size, read_in_size, write_in_size,
}
use fuse.Kernel.Requests.Names.{
  MkdirIn, MknodIn, CreateIn, RenameIn, LinkIn, ForgetIn, BatchForgetEntryIn, InterruptIn, InitIn,
}
use fuse.Kernel.Requests.Files.{
  SetattrIn, OpenIn, ReadIn, WriteIn, ReleaseIn, FlushIn, FsyncIn, FallocateIn, SetxattrIn,
  GetattrIn, GetxattrIn, ListxattrIn,
}
use fuse.Kernel.Requests.Encode
use fuse.Conversions.Reading.{IsName}

-- Which of the fields of `SetattrIn` are given, and the bits of `Valid` above these.
pub record Given : Type 0 where
  pub mode : Bool
  pub uid : Bool
  pub gid : Bool
  pub size : Bool
  pub atime : Bool
  pub mtime : Bool
  pub handle : Bool
  pub others : ℕ

abbrev pub bit : Bool → ℕ
bit true = 1
bit false = 0

-- `Valid`, with the bits of the kernel's `FATTR_` constants.
abbrev pub valid_of : Given → ℕ
valid_of g =
    bit g.mode
    + 2 * bit g.uid
    + 4 * bit g.gid
    + 8 * bit g.size
    + 16 * bit g.atime
    + 32 * bit g.mtime
    + 64 * bit g.handle
    + 128 * g.others

pub data Request : Type 0 where
  lookup unlink rmdir removexattr : Bytes → Request
  mkdir : MkdirIn → Bytes → Request
  mknod : MknodIn → Bytes → Request
  create : CreateIn → Bytes → Request
  symlink : Bytes → Bytes → Request
  rename : RenameIn → Bytes → Bytes → Request
  link : LinkIn → Bytes → Request
  setxattr : SetxattrIn → Bytes → Bytes → Request
  open_file : OpenIn → Request
  opendir : OpenIn → Request
  getattr : GetattrIn → Request
  readlink statfs sync_fs : Request
  read readdir : ReadIn → Request
  getxattr : GetxattrIn → Bytes → Request
  listxattr : ListxattrIn → Request
  write : WriteIn → Bytes → Request
  release releasedir : ReleaseIn → Request
  fsync fsyncdir : FsyncIn → Request
  flush : FlushIn → Request
  fallocate : FallocateIn → Request
  setattr : SetattrIn → Given → Request
  forget : ForgetIn → Request
  batch_forget : List BatchForgetEntryIn → Request
  interrupt : InterruptIn → Request
  init : InitIn → Request

abbrev pub opcode : Request → Opcode
opcode (lookup name) = Opcode.lookup
opcode (unlink name) = Opcode.unlink
opcode (rmdir name) = Opcode.rmdir
opcode (removexattr name) = Opcode.removexattr
opcode (mkdir s name) = Opcode.mkdir
opcode (mknod s name) = Opcode.mknod
opcode (create s name) = Opcode.create
opcode (symlink name target) = Opcode.symlink
opcode (rename s old new) = Opcode.rename
opcode (link s name) = Opcode.link
opcode (setxattr s name value) = Opcode.setxattr
opcode (open_file s) = Opcode.open_file
opcode (opendir s) = Opcode.opendir
opcode (getattr s) = Opcode.getattr
opcode readlink = Opcode.readlink
opcode statfs = Opcode.statfs
opcode sync_fs = Opcode.sync_fs
opcode (read s) = Opcode.read
opcode (readdir s) = Opcode.readdir
opcode (getxattr s name) = Opcode.getxattr
opcode (listxattr s) = Opcode.listxattr
opcode (write s b) = Opcode.write
opcode (release s) = Opcode.release
opcode (releasedir s) = Opcode.releasedir
opcode (fsync s) = Opcode.fsync
opcode (fsyncdir s) = Opcode.fsyncdir
opcode (flush s) = Opcode.flush
opcode (fallocate s) = Opcode.fallocate
opcode (setattr s g) = Opcode.setattr
opcode (forget s) = Opcode.forget
opcode (batch_forget l) = Opcode.batch_forget
opcode (interrupt s) = Opcode.interrupt
opcode (init s) = Opcode.init

-- A string with the NUL behind it.
abbrev pub c_string : Bytes → Bytes
c_string name = name ++ 0 ∷ []

abbrev pub entries_bytes : List BatchForgetEntryIn → Bytes
entries_bytes [] = []
entries_bytes (e ∷ l) = pack (Encode.batch_forget_entry_in_fields e) ++ entries_bytes l

-- What follows the header. Structures that grew with the protocol are cut to their older size, and
-- `GetattrIn` came with version 7.9.
abbrev pub body : Protocol → Request → Bytes
body p (lookup name) = c_string name
body p (unlink name) = c_string name
body p (rmdir name) = c_string name
body p (removexattr name) = c_string name
body p (mkdir s name) = take (mkdir_in_size p) (pack (Encode.mkdir_in_fields s)) ++ c_string name
body p (mknod s name) = take (mknod_in_size p) (pack (Encode.mknod_in_fields s)) ++ c_string name
body p (create s name) = take (create_in_size p) (pack (Encode.create_in_fields s)) ++ c_string name
body p (symlink name target) = name ++ 0 ∷ c_string target
body p (rename s old new) = pack (Encode.rename_in_fields s) ++ (old ++ 0 ∷ c_string new)
body p (link s name) = pack (Encode.link_in_fields s) ++ c_string name
body p (setxattr s name value) = pack (Encode.setxattr_in_fields s) ++ (name ++ 0 ∷ value)
body p (open_file s) = pack (Encode.open_in_fields s)
body p (opendir s) = pack (Encode.open_in_fields s)
body p (getattr s) = if lt p (version 7 9) then [] else pack (Encode.getattr_in_fields s)
body p readlink = []
body p statfs = []
body p (read s) = take (read_in_size p) (pack (Encode.read_in_fields s))
body p sync_fs = pack ((8, 0) ∷ [])
body p (readdir s) = take (read_in_size p) (pack (Encode.read_in_fields s))
body p (getxattr s name) = pack (Encode.getxattr_in_fields s) ++ c_string name
body p (listxattr s) = pack (Encode.listxattr_in_fields s)
body p (write s b) = take (write_in_size p) (pack (Encode.write_in_fields s)) ++ b
body p (release s) = pack (Encode.release_in_fields s)
body p (releasedir s) = pack (Encode.release_in_fields s)
body p (fsync s) = pack (Encode.fsync_in_fields s)
body p (fsyncdir s) = pack (Encode.fsync_in_fields s)
body p (flush s) = pack (Encode.flush_in_fields s)
body p (fallocate s) = pack (Encode.fallocate_in_fields s)
body p (setattr s g) = pack (Encode.setattr_in_fields s)
body p (forget s) = pack (Encode.forget_in_fields s)
body p (batch_forget l) =
    pack (Encode.batch_forget_count_in_fields (record { count = length l })) ++ entries_bytes l
body p (interrupt s) = pack (Encode.interrupt_in_fields s)
body p (init s) = pack (Encode.init_in_fields s)

-- What the kernel sends: values that fit in their fields, names without NUL bytes where a name ends at
-- the first of them, old and new names that are not empty, as much data as is said, an
-- extended attribute with two bytes or more in its name and value, a size for a listing that is not
-- 0, and in `Valid` the bits of the fields that are given.
abbrev pub IsSent : Request → Type 0
IsSent (lookup name) = Unit
IsSent (unlink name) = Unit
IsSent (rmdir name) = Unit
IsSent (removexattr name) = Unit
IsSent (mkdir s name) = IsPacked (Encode.mkdir_in_fields s) × IsName name
IsSent (mknod s name) = IsPacked (Encode.mknod_in_fields s) × IsName name
IsSent (create s name) = IsPacked (Encode.create_in_fields s) × IsName name
IsSent (symlink name target) = IsName name
IsSent (rename s old new) =
    IsPacked (Encode.rename_in_fields s) × IsName old × (0 < length old) × (0 < length new)
IsSent (link s name) = IsPacked (Encode.link_in_fields s) × IsName name × (0 < length name)
IsSent (setxattr s name value) =
    IsPacked (Encode.setxattr_in_fields s) × IsName name × (2 ≤ length (name ++ value))
IsSent (open_file s) = IsPacked (Encode.open_in_fields s)
IsSent (opendir s) = IsPacked (Encode.open_in_fields s)
IsSent (getattr s) = IsPacked (Encode.getattr_in_fields s)
IsSent readlink = Unit
IsSent statfs = Unit
IsSent (read s) = IsPacked (Encode.read_in_fields s)
IsSent sync_fs = Unit
IsSent (readdir s) = IsPacked (Encode.read_in_fields s) × (0 < s.size)
IsSent (getxattr s name) = IsPacked (Encode.getxattr_in_fields s) × IsName name
IsSent (listxattr s) = IsPacked (Encode.listxattr_in_fields s)
IsSent (write s b) = IsPacked (Encode.write_in_fields s) × (s.size ≤ length b)
IsSent (release s) = IsPacked (Encode.release_in_fields s)
IsSent (releasedir s) = IsPacked (Encode.release_in_fields s)
IsSent (fsync s) = IsPacked (Encode.fsync_in_fields s)
IsSent (fsyncdir s) = IsPacked (Encode.fsync_in_fields s)
IsSent (flush s) = IsPacked (Encode.flush_in_fields s)
IsSent (fallocate s) = IsPacked (Encode.fallocate_in_fields s)
IsSent (setattr s g) = IsPacked (Encode.setattr_in_fields s) × (s.valid ≡ valid_of g)
IsSent (forget s) = IsPacked (Encode.forget_in_fields s)
IsSent (batch_forget l) =
    (length l < 256 ^ 4) × All (λ e. IsPacked (Encode.batch_forget_entry_in_fields e)) l
IsSent (interrupt s) = IsPacked (Encode.interrupt_in_fields s)
IsSent (init s) = IsPacked (Encode.init_in_fields s)

-- What `convertInMessage` leaves unread at the end of the message.
abbrev pub unread : Protocol → Request → Bytes
unread p (opendir s) = body p (opendir s)
unread p (getattr s) = body p (getattr s)
unread p _ = []
