-- ===== src/Fuseutil.antt =====
-- fuseutil/file_system.go and fuseutil/not_implemented_file_system.go: the interface of a file system,
-- and the dispatch of an op to its method. A method gives an error or none, and the op as it leaves
-- it; it may panic. Ops are handled one at a time, each to its end.
pub mod Forgetting
pub mod Refusing
mod Tests
use fuse.Base.{
  ℕ, Bool, false, Option, none, some, List, [], ◌∷◌, ◌⊎◌, Outcome, done, panic, ◌>>=◌, ◌==◌,
  if◌then◌else◌,
}
use fuse.Fuseops.Inodes.{
  StatFsOp, SyncFsOp, LookUpInodeOp, GetInodeAttributesOp, SetInodeAttributesOp, ForgetInodeOp,
  BatchForgetOp, ReadSymlinkOp, BatchForgetEntry,
}
use fuse.Fuseops.Names.{
  MkDirOp, MkNodeOp, CreateFileOp, CreateSymlinkOp, CreateLinkOp, RenameOp, RmDirOp, UnlinkOp,
}
use fuse.Fuseops.Files.{
  OpenDirOp, ReadDirOp, ReleaseDirHandleOp, OpenFileOp, ReadFileOp, WriteFileOp, SyncFileOp,
  FlushFileOp, ReleaseFileHandleOp, FallocateOp,
}
use fuse.Fuseops.Xattrs.{RemoveXattrOp, GetXattrOp, ListXattrOp, SetXattrOp}
use fuse.Fuseops.Types.{OpContext}
use fuse.Fuseops
use fuse.Fuseops.{Op}
use fuse.Conversions.Responses.{OpError, errno, foreign}
use fuse.Connection.Logging.{enosys}
use fuse.Connection.Ops.{Config, OpState, Session, Replied, reply}

abbrev pub Method : Type 0 → Type 0 → Type 0
Method T S = T → S → Outcome (Option OpError × T × S)

pub record FileSystem (S : Type 0) : Type 0 where
  pub stat_fs : Method StatFsOp S
  pub look_up_inode : Method LookUpInodeOp S
  pub get_inode_attributes : Method GetInodeAttributesOp S
  pub set_inode_attributes : Method SetInodeAttributesOp S
  pub forget_inode : Method ForgetInodeOp S
  pub batch_forget : Method BatchForgetOp S
  pub mk_dir : Method MkDirOp S
  pub mk_node : Method MkNodeOp S
  pub create_file : Method CreateFileOp S
  pub create_link : Method CreateLinkOp S
  pub create_symlink : Method CreateSymlinkOp S
  pub rename : Method RenameOp S
  pub rm_dir : Method RmDirOp S
  pub unlink : Method UnlinkOp S
  pub open_dir : Method OpenDirOp S
  pub read_dir : Method ReadDirOp S
  pub release_dir_handle : Method ReleaseDirHandleOp S
  pub open_file : Method OpenFileOp S
  pub read_file : Method ReadFileOp S
  pub write_file : Method WriteFileOp S
  pub sync_file : Method SyncFileOp S
  pub flush_file : Method FlushFileOp S
  pub release_file_handle : Method ReleaseFileHandleOp S
  pub read_symlink : Method ReadSymlinkOp S
  pub remove_xattr : Method RemoveXattrOp S
  pub get_xattr : Method GetXattrOp S
  pub list_xattr : Method ListXattrOp S
  pub set_xattr : Method SetXattrOp S
  pub fallocate : Method FallocateOp S
  pub sync_fs : Method SyncFsOp S
  pub destroy : S → Outcome S

-- The method of `NotImplementedFileSystem`.
abbrev pub refuse : {T S : Type 0} → Method T S
refuse o s = done (some (errno enosys), o, s)

unfoldable pub not_implemented : (S : Type 0) → FileSystem S
not_implemented S = record {
  stat_fs = refuse;
  look_up_inode = refuse;
  get_inode_attributes = refuse;
  set_inode_attributes = refuse;
  forget_inode = refuse;
  batch_forget = refuse;
  mk_dir = refuse;
  mk_node = refuse;
  create_file = refuse;
  create_link = refuse;
  create_symlink = refuse;
  rename = refuse;
  rm_dir = refuse;
  unlink = refuse;
  open_dir = refuse;
  read_dir = refuse;
  release_dir_handle = refuse;
  open_file = refuse;
  read_file = refuse;
  write_file = refuse;
  sync_file = refuse;
  flush_file = refuse;
  release_file_handle = refuse;
  read_symlink = refuse;
  remove_xattr = refuse;
  get_xattr = refuse;
  list_xattr = refuse;
  set_xattr = refuse;
  fallocate = refuse;
  sync_fs = refuse;
  destroy = λ s. done s;
}

abbrev pub is_enosys : Option OpError → Bool
is_enosys none = false
is_enosys (some foreign) = false
is_enosys (some (errno n)) = n == enosys

abbrev pub Handled : Type 0 → Type 0
Handled S = Outcome (Option OpError × Op × S)

-- A method's result, with the op under its constructor.
abbrev pub dispatched : {T S : Type 0} → (T → Op) → Outcome (Option OpError × T × S) → Handled S
dispatched f o = o >>= λ r. done (r.0, f r.1, r.2)

-- What follows one forget of a batch: the loop ends with an error.
abbrev pub go_on_forgetting :
    {S : Type 0}
    → (S → Outcome (Option OpError × S))
    → Option OpError × S
    → Outcome (Option OpError × S)
go_on_forgetting more (none, s) = more s
go_on_forgetting more (some e, s) = done (some e, s)

-- The loop over the entries, with the error so far.
unfoldable pub forget_entries :
    {S : Type 0}
    → FileSystem S
    → OpContext
    → List BatchForgetEntry
    → Option OpError
    → S
    → Outcome (Option OpError × S)
forget_entries fs ctx [] err s = done (err, s)
forget_entries fs ctx (e ∷ es) err s =
    fs.forget_inode (record { inode = e.inode; n = e.n; op_context = ctx }) s >>= λ r.
    go_on_forgetting (forget_entries fs ctx es none) (r.0, r.2)

-- `BatchForget`, and the single forgets if the file system has not got it.
abbrev pub or_one_by_one :
    {S : Type 0} → FileSystem S → Option OpError × BatchForgetOp × S → Handled S
or_one_by_one fs r =
    if is_enosys r.0
    then (forget_entries fs (r.1).op_context (r.1).entries r.0 r.2 >>= λ q.
        done (q.0, Fuseops.batch_forget r.1, q.1))
    else done (r.0, Fuseops.batch_forget r.1, r.2)

unfoldable pub handle_op : {S : Type 0} → FileSystem S → Op → S → Handled S
unfolding forget_entries
handle_op fs (Fuseops.stat_fs o) s = dispatched Fuseops.stat_fs (fs.stat_fs o s)
handle_op fs (Fuseops.look_up_inode o) s = dispatched Fuseops.look_up_inode (fs.look_up_inode o s)
handle_op fs (Fuseops.get_inode_attributes o) s =
    dispatched Fuseops.get_inode_attributes (fs.get_inode_attributes o s)
handle_op fs (Fuseops.set_inode_attributes o) s =
    dispatched Fuseops.set_inode_attributes (fs.set_inode_attributes o s)
handle_op fs (Fuseops.forget_inode o) s = dispatched Fuseops.forget_inode (fs.forget_inode o s)
handle_op fs (Fuseops.batch_forget o) s = fs.batch_forget o s >>= or_one_by_one fs
handle_op fs (Fuseops.mk_dir o) s = dispatched Fuseops.mk_dir (fs.mk_dir o s)
handle_op fs (Fuseops.mk_node o) s = dispatched Fuseops.mk_node (fs.mk_node o s)
handle_op fs (Fuseops.create_file o) s = dispatched Fuseops.create_file (fs.create_file o s)
handle_op fs (Fuseops.create_link o) s = dispatched Fuseops.create_link (fs.create_link o s)
handle_op fs (Fuseops.create_symlink o) s =
    dispatched Fuseops.create_symlink (fs.create_symlink o s)
handle_op fs (Fuseops.rename o) s = dispatched Fuseops.rename (fs.rename o s)
handle_op fs (Fuseops.rm_dir o) s = dispatched Fuseops.rm_dir (fs.rm_dir o s)
handle_op fs (Fuseops.unlink o) s = dispatched Fuseops.unlink (fs.unlink o s)
handle_op fs (Fuseops.open_dir o) s = dispatched Fuseops.open_dir (fs.open_dir o s)
handle_op fs (Fuseops.read_dir o) s = dispatched Fuseops.read_dir (fs.read_dir o s)
handle_op fs (Fuseops.release_dir_handle o) s =
    dispatched Fuseops.release_dir_handle (fs.release_dir_handle o s)
handle_op fs (Fuseops.open_file o) s = dispatched Fuseops.open_file (fs.open_file o s)
handle_op fs (Fuseops.read_file o) s = dispatched Fuseops.read_file (fs.read_file o s)
handle_op fs (Fuseops.write_file o) s = dispatched Fuseops.write_file (fs.write_file o s)
handle_op fs (Fuseops.sync_file o) s = dispatched Fuseops.sync_file (fs.sync_file o s)
handle_op fs (Fuseops.flush_file o) s = dispatched Fuseops.flush_file (fs.flush_file o s)
handle_op fs (Fuseops.release_file_handle o) s =
    dispatched Fuseops.release_file_handle (fs.release_file_handle o s)
handle_op fs (Fuseops.read_symlink o) s = dispatched Fuseops.read_symlink (fs.read_symlink o s)
handle_op fs (Fuseops.remove_xattr o) s = dispatched Fuseops.remove_xattr (fs.remove_xattr o s)
handle_op fs (Fuseops.get_xattr o) s = dispatched Fuseops.get_xattr (fs.get_xattr o s)
handle_op fs (Fuseops.list_xattr o) s = dispatched Fuseops.list_xattr (fs.list_xattr o s)
handle_op fs (Fuseops.set_xattr o) s = dispatched Fuseops.set_xattr (fs.set_xattr o s)
handle_op fs (Fuseops.fallocate o) s = dispatched Fuseops.fallocate (fs.fallocate o s)
handle_op fs (Fuseops.sync_fs o) s = dispatched Fuseops.sync_fs (fs.sync_fs o s)
handle_op fs (Fuseops.interrupt o) s = done (some (errno enosys), Fuseops.interrupt o, s)
handle_op fs (Fuseops.init o) s = done (some (errno enosys), Fuseops.init o, s)
handle_op fs (Fuseops.unknown o) s = done (some (errno enosys), Fuseops.unknown o, s)

-- The op is handled, and the call of `Reply` gets the op as the method left it.
unfoldable pub handle_and_reply :
    {S : Type 0}
    → FileSystem S
    → Config
    → (ℕ → ℕ → ℕ)
    → OpState
    → ℕ ⊎ ℕ
    → Session
    → S
    → Outcome (Replied × S)
unfolding handle_op
handle_and_reply fs cfg until st w c s = do
  (err, op, s') ← handle_op fs st.op s
  r ← reply cfg until (record st { op = op }) err w c
  done (r, s')
