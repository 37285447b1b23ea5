-- ===== src/Conversions/Requests/Convert.antt =====
-- conversions.go: `convertInMessage` on each kind of request.
use fuse.Base.{◌≡◌, refl, ap, ◌∙◌, Bool}
use fuse.Kernel.Protocol.{Protocol}
use fuse.Kernel.Requests.{opcode_number, opcode_of}
use fuse.Kernel.Requests.Numbers.{opcode_of-number}
use fuse.Buffer.InMessage
use fuse.Buffer.InMessage.{InHeader}
use fuse.Conversions.Exchange.{Exchange}
use fuse.Conversions.Incoming.{convert_opcode, convert_found, convert_in_message}
use fuse.Conversions.Incoming.Inodes.{convert_getattr, convert_readlink, convert_statfs}
use fuse.Conversions.Incoming.Files.{convert_opendir}
use fuse.Conversions.Reading.{Holds}
use fuse.Conversions.Gives.{GivesWith}
use fuse.Conversions.Exchange.{op_context}
use fuse.Conversions.Requests.Buffers.{
  convert_syncfs_lem, convert_readdir_room, convert_getxattr_lem, convert_listxattr_lem,
}
use fuse.Conversions.Requests.Names.{
  convert_lookup_lem, convert_unlink_lem, convert_rmdir_lem, convert_removexattr_lem,
  convert_mkdir_lem, convert_mknod_lem, convert_create_lem,
}
use fuse.Conversions.Requests.Pairs.{
  convert_symlink_lem, convert_rename_lem, convert_link_lem, convert_setxattr_lem,
}
use fuse.Conversions.Requests.Files.{
  convert_open_lem, convert_read_lem, convert_write_lem, convert_release_lem,
  convert_releasedir_lem, convert_fsync_lem, convert_flush_lem, convert_fallocate_lem,
}
use fuse.Conversions.Requests.Inodes.{
  convert_setattr_lem, convert_forget_lem, convert_interrupt_lem, convert_init_lem,
  convert_batch_forget_lem,
}
use fuse.Conversions.Requests.{
  Request, IsSent, unread, sync_fs, readdir, getxattr, listxattr, body, opcode, lookup, unlink,
  rmdir, removexattr, mkdir, mknod, create, symlink, rename, link, setxattr, open_file, opendir,
  getattr, readlink, statfs, read, write, release, releasedir, fsync, fsyncdir, flush, fallocate,
  setattr, forget, batch_forget, interrupt, init,
}
use fuse.Conversions.Requests.Ops.{op, room_of, reply_for}

module _ (v : Bool) (p : Protocol) (h : InHeader) (x : Exchange) where
  convert_opcode_lem :
      (q : Request)
      → IsSent q
      → Holds (body p q) x
      → GivesWith
          (convert_opcode v p h (opcode q))
          (op v h (room_of x) q)
          (unread p q)
          (reply_for q x.outgoing)
          x
  unfolding convert_opcode op_context convert_opendir convert_getattr convert_readlink
      convert_statfs
  convert_opcode_lem (lookup name) sent r = convert_lookup_lem v h x name r
  convert_opcode_lem (unlink name) sent r = convert_unlink_lem v h x name r
  convert_opcode_lem (rmdir name) sent r = convert_rmdir_lem v h x name r
  convert_opcode_lem (removexattr name) sent r = convert_removexattr_lem v h x name r
  convert_opcode_lem (mkdir s name) sent r = convert_mkdir_lem v p h x s name sent.0 sent.1 r
  convert_opcode_lem (mknod s name) sent r = convert_mknod_lem v p h x s name sent.0 sent.1 r
  convert_opcode_lem (create s name) sent r = convert_create_lem v p h x s name sent.0 sent.1 r
  convert_opcode_lem (symlink name target) sent r = convert_symlink_lem v p h x name target sent r
  convert_opcode_lem (rename s old new) sent r =
      convert_rename_lem v p h x s old new sent.0 sent.1 sent.2 sent.3 r
  convert_opcode_lem (link s name) sent r = convert_link_lem v p h x s name sent.0 sent.1 sent.2 r
  convert_opcode_lem (setxattr s name value) sent r =
      convert_setxattr_lem v p h x s name value sent.0 sent.1 sent.2 r
  convert_opcode_lem (opendir s) sent r = (x, refl, r, refl)
  convert_opcode_lem (getattr s) sent r = (x, refl, r, refl)
  convert_opcode_lem readlink sent r = (x, refl, r, refl)
  convert_opcode_lem statfs sent r = (x, refl, r, refl)
  convert_opcode_lem sync_fs sent r = convert_syncfs_lem v p h x r
  convert_opcode_lem (readdir s) sent r = convert_readdir_room v p h x s sent.0 sent.1 r
  convert_opcode_lem (getxattr s name) sent r = convert_getxattr_lem v p h x s name sent.0 sent.1 r
  convert_opcode_lem (listxattr s) sent r = convert_listxattr_lem v p h x s sent r
  convert_opcode_lem (write s b) sent r = convert_write_lem v p h x s b sent.0 sent.1 r
  convert_opcode_lem (batch_forget l) sent r = convert_batch_forget_lem v p h x l sent.0 sent.1 r
  convert_opcode_lem (open_file s) sent r = convert_open_lem v p h x s sent r
  convert_opcode_lem (read s) sent r = convert_read_lem v p h x s sent r
  convert_opcode_lem (release s) sent r = convert_release_lem v p h x s sent r
  convert_opcode_lem (releasedir s) sent r = convert_releasedir_lem v p h x s sent r
  convert_opcode_lem (fsync s) sent r = convert_fsync_lem v p h x s sent r
  convert_opcode_lem (fsyncdir s) sent r = convert_fsync_lem v p h x s sent r
  convert_opcode_lem (flush s) sent r = convert_flush_lem v p h x s sent r
  convert_opcode_lem (fallocate s) sent r = convert_fallocate_lem v p h x s sent r
  convert_opcode_lem (setattr s g) sent r = convert_setattr_lem v p h x s g sent.0 sent.1 r
  convert_opcode_lem (forget s) sent r = convert_forget_lem v p h x s sent r
  convert_opcode_lem (interrupt s) sent r = convert_interrupt_lem v p h x s sent r
  convert_opcode_lem (init s) sent r = convert_init_lem v p h x s sent r

-- When the header's opcode is that of a request, of any kind that there is a case for, and what is left
-- of the message is the request's body by the kernel's layout, for values as `IsSent` says (they fit
-- in their fields, names have no NUL bytes, the size of a directory read is not 0, and so on),
-- `convertInMessage` gives the op of that request: the header's inode and context (for a SYNCFS the
-- process ID alone), the names, the data, the decoded values, of a SETATTR the fields whose bits are
-- set, and the buffer. It reads all but the bodies of GETATTR and OPENDIR, and it leaves the reply,
-- but for a buffer of the size asked for at the end of it for READDIR, GETXATTR and LISTXATTR.
pub convert_in_message_lem :
    (v : Bool) (p : Protocol) (x : Exchange) (q : Request)
    → IsSent q
    → Holds (body p q) x
    → (InMessage.header x.incoming).opcode ≡ opcode_number (opcode q)
    → GivesWith
        (convert_in_message v p)
        (op v (InMessage.header x.incoming) (room_of x) q)
        (unread p q)
        (reply_for q x.outgoing)
        x
unfolding convert_in_message
convert_in_message_lem v p x q sent r is_op =
    let h = InMessage.header x.incoming in
    let (x', ran, empty, same) = convert_opcode_lem v p h x q sent r in
    (
      x',
      ap (λ c. convert_found v p h c x) (ap opcode_of is_op ∙ opcode_of-number (opcode q)) ∙ ran,
      empty,
      same,
    )
