-- ===== src/Conversions/Incoming.antt =====
-- conversions.go: `convertInMessage`, one function for each case of its switch. The buffer that
-- `OpReaddir` and the others grow is named by its segment.
pub mod Names
pub mod Files
pub mod Inodes
use fuse.Base.{Bool, Option, none, some}
use fuse.Kernel.Protocol.{Protocol}
use fuse.Kernel.Requests.{
  Opcode, opcode_of, lookup, forget, getattr, setattr, readlink, symlink, mknod, mkdir, unlink,
  rmdir, rename, link, open_file, read, write, statfs, release, fsync, setxattr, getxattr,
  listxattr, removexattr, flush, init, opendir, readdir, releasedir, fsyncdir, create, interrupt,
  batch_forget, fallocate, sync_fs,
}
use fuse.Buffer.InMessage
use fuse.Buffer.InMessage.{InHeader}
use fuse.Fuseops.{Op}
use fuse.Conversions.Exchange.{M, Exchange}
use fuse.Conversions.Incoming.Names.{
  convert_lookup, convert_unlink, convert_rmdir, convert_removexattr, convert_mkdir, convert_mknod,
  convert_create, convert_symlink, convert_rename, convert_link, convert_getxattr, convert_setxattr,
}
use fuse.Conversions.Incoming.Files.{
  convert_open, convert_opendir, convert_read, convert_readdir, convert_release, convert_releasedir,
  convert_write, convert_fsync, convert_syncfs, convert_flush, convert_fallocate, convert_listxattr,
}
use fuse.Conversions.Incoming.Inodes.{
  convert_getattr, convert_setattr, convert_forget, convert_batch_forget, convert_readlink,
  convert_statfs, convert_interrupt, convert_init, convert_unknown,
}

-- The `switch`, by the configuration's `UseVectoredRead` and the version of the protocol.
unfoldable pub convert_opcode : Bool → Protocol → InHeader → Opcode → M Op
convert_opcode v p h lookup = convert_lookup h
convert_opcode v p h getattr = convert_getattr h
convert_opcode v p h setattr = convert_setattr h
convert_opcode v p h forget = convert_forget h
convert_opcode v p h batch_forget = convert_batch_forget h
convert_opcode v p h mkdir = convert_mkdir p h
convert_opcode v p h mknod = convert_mknod p h
convert_opcode v p h create = convert_create p h
convert_opcode v p h symlink = convert_symlink h
convert_opcode v p h rename = convert_rename h
convert_opcode v p h unlink = convert_unlink h
convert_opcode v p h rmdir = convert_rmdir h
convert_opcode v p h open_file = convert_open h
convert_opcode v p h opendir = convert_opendir h
convert_opcode v p h read = convert_read v p h
convert_opcode v p h readdir = convert_readdir p h
convert_opcode v p h release = convert_release h
convert_opcode v p h releasedir = convert_releasedir h
convert_opcode v p h write = convert_write p h
convert_opcode v p h fsync = convert_fsync h
convert_opcode v p h fsyncdir = convert_fsync h
convert_opcode v p h sync_fs = convert_syncfs h
convert_opcode v p h flush = convert_flush h
convert_opcode v p h readlink = convert_readlink h
convert_opcode v p h statfs = convert_statfs
convert_opcode v p h interrupt = convert_interrupt
convert_opcode v p h init = convert_init
convert_opcode v p h link = convert_link h
convert_opcode v p h removexattr = convert_removexattr h
convert_opcode v p h getxattr = convert_getxattr h
convert_opcode v p h listxattr = convert_listxattr h
convert_opcode v p h setxattr = convert_setxattr h
convert_opcode v p h fallocate = convert_fallocate h

-- An opcode without a case gives an op that the library answers by itself.
abbrev pub convert_found : Bool → Protocol → InHeader → Option Opcode → M Op
convert_found v p h none = convert_unknown h
convert_found v p h (some c) = convert_opcode v p h c

unfoldable pub convert_in_message : Bool → Protocol → M Op
unfolding convert_opcode
convert_in_message v p x =
    let h = InMessage.header x.incoming in convert_found v p h (opcode_of h.opcode) x
