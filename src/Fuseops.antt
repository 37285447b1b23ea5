-- ===== src/Fuseops.antt =====
-- The ops, as one type: those of fuseops/ops.go, and the internal ones of ops.go.
pub mod Types
pub mod Inodes
pub mod Names
pub mod Files
pub mod Xattrs
pub mod Internal
use fuse.Fuseops.Inodes.{
  StatFsOp, SyncFsOp, LookUpInodeOp, GetInodeAttributesOp, SetInodeAttributesOp, ForgetInodeOp,
  BatchForgetOp, ReadSymlinkOp,
}
use fuse.Fuseops.Names.{
  MkDirOp, MkNodeOp, CreateFileOp, CreateSymlinkOp, CreateLinkOp, RenameOp, RmDirOp, UnlinkOp,
}
use fuse.Fuseops.Files.{
  OpenDirOp, ReadDirOp, ReleaseDirHandleOp, OpenFileOp, ReadFileOp, WriteFileOp, SyncFileOp,
  FlushFileOp, ReleaseFileHandleOp, FallocateOp,
}
use fuse.Fuseops.Xattrs.{RemoveXattrOp, GetXattrOp, ListXattrOp, SetXattrOp}
use fuse.Fuseops.Internal.{InitOp, InterruptOp, UnknownOp}

pub data Op : Type 0 where
  stat_fs : StatFsOp → Op
  sync_fs : SyncFsOp → Op
  look_up_inode : LookUpInodeOp → Op
  get_inode_attributes : GetInodeAttributesOp → Op
  set_inode_attributes : SetInodeAttributesOp → Op
  forget_inode : ForgetInodeOp → Op
  batch_forget : BatchForgetOp → Op
  read_symlink : ReadSymlinkOp → Op
  mk_dir : MkDirOp → Op
  mk_node : MkNodeOp → Op
  create_file : CreateFileOp → Op
  create_symlink : CreateSymlinkOp → Op
  create_link : CreateLinkOp → Op
  rename : RenameOp → Op
  rm_dir : RmDirOp → Op
  unlink : UnlinkOp → Op
  open_dir : OpenDirOp → Op
  read_dir : ReadDirOp → Op
  release_dir_handle : ReleaseDirHandleOp → Op
  open_file : OpenFileOp → Op
  read_file : ReadFileOp → Op
  write_file : WriteFileOp → Op
  sync_file : SyncFileOp → Op
  flush_file : FlushFileOp → Op
  release_file_handle : ReleaseFileHandleOp → Op
  fallocate : FallocateOp → Op
  remove_xattr : RemoveXattrOp → Op
  get_xattr : GetXattrOp → Op
  list_xattr : ListXattrOp → Op
  set_xattr : SetXattrOp → Op
  interrupt : InterruptOp → Op
  init : InitOp → Op
  unknown : UnknownOp → Op
