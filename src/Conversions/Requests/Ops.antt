-- ===== src/Conversions/Requests/Ops.antt =====
-- conversions.go: the op that each request stands for, and the buffers that are made for it.
use fuse.Base.{
  ℕ, ◌+◌, Bool, true, false, Option, none, some, List, [], ◌∷◌, ◌++◌, ◌^◌, length, replicate, ltb,
  ◌==◌, ◌||◌, if◌then◌else◌,
}
use fuse.Kernel.Protocol.{version}
use fuse.Kernel.Requests.Names.{BatchForgetEntryIn}
use fuse.Kernel.Requests.Files.{SetattrIn}
use fuse.Buffer.InMessage.{InHeader}
use fuse.Buffer.OutMessage
use fuse.Buffer.OutMessage.{OutMessage, Segment, header_bytes}
use fuse.Fuseops
use fuse.Fuseops.{
  Op, stat_fs, look_up_inode, get_inode_attributes, set_inode_attributes, forget_inode,
  read_symlink, mk_dir, mk_node, create_file, create_symlink, create_link, rm_dir, open_dir,
  read_dir, release_dir_handle, read_file, write_file, sync_file, flush_file, release_file_handle,
  remove_xattr, get_xattr, list_xattr, set_xattr,
}
use fuse.Fuseops.Types.{OpContext, zero_entry, zero_attributes, Buffer, nil, in_message, in_segment}
use fuse.Fuseops.Inodes.{BatchForgetEntry, SetInodeAttributesOp}
use fuse.Conversions.{convert_file_mode, with_bit, mode_dir, has_bit}
use fuse.Conversions.Exchange.{Exchange}
use fuse.Conversions.Requests.{
  Request, Given, lookup, unlink, rmdir, removexattr, mkdir, mknod, create, symlink, rename, link,
  setxattr, open_file, opendir, getattr, readlink, statfs, sync_fs, read, readdir, getxattr,
  listxattr, write, release, releasedir, fsync, fsyncdir, flush, fallocate, setattr, forget,
  batch_forget, interrupt, init,
}

-- Where a request is converted: the bytes of the message read and of its storage, and the segments of
-- the reply, the header's among them.
pub record Room : Type 0 where
  pub used : ℕ
  pub storage : ℕ
  pub segments : ℕ

-- The caller, as the header says.
abbrev pub asker : InHeader → OpContext
asker h = record { fuse_id = h.unique; pid = h.pid; uid = h.uid }

abbrev pub if_given : {A : Type 0} → Bool → A → Option A
if_given given a = if given then some a else none

abbrev pub setattr_op : InHeader → SetattrIn → Given → SetInodeAttributesOp
setattr_op h s g = record {
  inode = h.nodeid;
  handle = if_given g.handle s.fh;
  uid = if_given g.uid s.uid;
  gid = if_given g.gid s.gid;
  size = if_given g.size s.size;
  mode = if_given g.mode (convert_file_mode s.mode);
  atime = if_given g.atime (s.atime, s.atime_nsec);
  mtime = if_given g.mtime (s.mtime, s.mtime_nsec);
  attributes = zero_attributes;
  attributes_expiration = 0;
  op_context = asker h;
}

abbrev pub entries : List BatchForgetEntryIn → List BatchForgetEntry
entries [] = []
entries (e ∷ l) = record { inode = e.inode; n = e.nlookup } ∷ entries l

-- The buffer for a read that is not vectored is the space behind the message, if there is enough.
abbrev pub read_dst : Bool → Room → ℕ → Buffer
read_dst true r n = nil
read_dst false r n =
    if n == 0 || ltb r.storage (r.used + n)
    then nil
    else in_message (record { off = r.used; len = n })

-- The buffer for a reply of a known size is a new segment of the reply.
abbrev pub reply_dst : Room → ℕ → Buffer
reply_dst r n = if n == 0 then nil else in_segment r.segments n

-- What a request asks of the file system. Of the context of a SYNCFS only the process ID is known.
abbrev pub op : Bool → InHeader → Room → Request → Op
op v h r (lookup name) =
    look_up_inode
      (record { parent = h.nodeid; name = name; entry = zero_entry; op_context = asker h })
op v h r (unlink name) =
    Fuseops.unlink (record { parent = h.nodeid; name = name; op_context = asker h })
op v h r (rmdir name) = rm_dir (record { parent = h.nodeid; name = name; op_context = asker h })
op v h r (removexattr name) =
    remove_xattr (record { inode = h.nodeid; name = name; op_context = asker h })
op v h r (mkdir s name) = mk_dir (record {
  parent = h.nodeid;
  name = name;
  mode = with_bit mode_dir (convert_file_mode s.mode);
  entry = zero_entry;
  op_context = asker h;
})
op v h r (mknod s name) = mk_node (record {
  parent = h.nodeid;
  name = name;
  mode = convert_file_mode s.mode;
  rdev = s.rdev;
  entry = zero_entry;
  op_context = asker h;
})
op v h r (create s name) = create_file (record {
  parent = h.nodeid;
  name = name;
  mode = convert_file_mode s.mode;
  entry = zero_entry;
  handle = 0;
  op_context = asker h;
})
op v h r (symlink name target) = create_symlink (record {
  parent = h.nodeid;
  name = name;
  target = target;
  entry = zero_entry;
  op_context = asker h;
})
op v h r (rename s old new) = Fuseops.rename (record {
  old_parent = h.nodeid;
  old_name = old;
  new_parent = s.newdir;
  new_name = new;
  op_context = asker h;
})
op v h r (link s name) = create_link (record {
  parent = h.nodeid;
  name = name;
  target = s.oldnodeid;
  entry = zero_entry;
  op_context = asker h;
})
op v h r (setxattr s name value) =
    set_xattr (record {
      inode = h.nodeid;
      name = name;
      value = value;
      flags = s.flags;
      op_context = asker h;
    })
op v h r (open_file s) = Fuseops.open_file (record {
  inode = h.nodeid;
  handle = 0;
  keep_page_cache = false;
  use_direct_io = false;
  open_flags = s.flags;
  op_context = asker h;
})
op v h r (opendir s) = open_dir (record {
  inode = h.nodeid;
  handle = 0;
  op_context = asker h;
  cache_dir = false;
  keep_cache = false;
})
op v h r (getattr s) = get_inode_attributes (record {
  inode = h.nodeid;
  attributes = zero_attributes;
  attributes_expiration = 0;
  op_context = asker h;
})
op v h r readlink = read_symlink (record { inode = h.nodeid; target = []; op_context = asker h })
op v h r statfs = stat_fs (record {
  block_size = 0;
  blocks = 0;
  blocks_free = 0;
  blocks_available = 0;
  io_size = 0;
  inodes = 0;
  inodes_free = 0;
})
op v h r (read s) = read_file (record {
  inode = h.nodeid;
  handle = s.fh;
  offset = s.offset;
  size = s.size;
  dst = read_dst v r s.size;
  payload = [];
  bytes_read = 0;
  op_context = asker h;
  callback = none;
})
op v h r sync_fs =
    Fuseops.sync_fs
      (record { inode = h.nodeid; op_context = record { fuse_id = 0; pid = h.pid; uid = 0 } })
op v h r (readdir s) = read_dir (record {
  inode = h.nodeid;
  handle = s.fh;
  offset = s.offset;
  dst = in_segment r.segments s.size;
  bytes_read = 0;
  op_context = asker h;
})
op v h r (getxattr s name) = get_xattr (record {
  inode = h.nodeid;
  name = name;
  dst = reply_dst r s.size;
  bytes_read = 0;
  op_context = asker h;
})
op v h r (listxattr s) =
    list_xattr
      (record { inode = h.nodeid; dst = reply_dst r s.size; bytes_read = 0; op_context = asker h })
op v h r (write s b) = write_file (record {
  inode = h.nodeid;
  handle = s.fh;
  offset = s.offset;
  payload = b;
  op_context = asker h;
  callback = none;
})
op v h r (release s) = release_file_handle (record { handle = s.fh; op_context = asker h })
op v h r (releasedir s) = release_dir_handle (record { handle = s.fh; op_context = asker h })
op v h r (fsync s) = sync_file (record { inode = h.nodeid; handle = s.fh; op_context = asker h })
op v h r (fsyncdir s) = sync_file (record { inode = h.nodeid; handle = s.fh; op_context = asker h })
op v h r (flush s) = flush_file (record { inode = h.nodeid; handle = s.fh; op_context = asker h })
op v h r (fallocate s) = Fuseops.fallocate (record {
  inode = h.nodeid;
  handle = s.fh;
  offset = s.offset;
  length = s.length;
  mode = s.mode;
  op_context = asker h;
})
op v h r (setattr s g) = set_inode_attributes (setattr_op h s g)
op v h r (forget s) =
    forget_inode (record { inode = h.nodeid; n = s.nlookup; op_context = asker h })
op v h r (batch_forget l) =
    Fuseops.batch_forget (record { entries = entries l; op_context = asker h })
op v h r (interrupt s) = Fuseops.interrupt (record { fuse_id = s.unique })
op v h r (init s) = Fuseops.init (record {
  kernel = version s.major s.minor;
  flags = λ j. has_bit (2 ^ j) s.flags;
  library = version 0 0;
  max_readahead = s.max_readahead;
  max_background = 0;
  max_write = 0;
  max_pages = 0;
})

-- The segments of a list, which is made with the header's when there is none.
abbrev pub segments : Option (List Segment) → ℕ
segments none = 1
segments (some l) = length l

abbrev pub room_of : Exchange → Room
room_of x = record {
  used = x.incoming.size;
  storage = length x.incoming.storage;
  segments = segments x.outgoing.sglist;
}

-- A list with a segment of `n` zeros behind it.
abbrev pub with_zeros : ℕ → Option (List Segment) → List Segment
with_zeros n none = header_bytes ∷ OutMessage.bytes (replicate n 0) ∷ []
with_zeros n (some l) = l ++ (OutMessage.bytes (replicate n 0) ∷ [])

abbrev pub with_buffer : ℕ → OutMessage → OutMessage
with_buffer n m = if n == 0 then m else record m { sglist = some (with_zeros n m.sglist) }

-- The reply that the op comes with: it has the buffer, if there is one.
abbrev pub reply_for : Request → OutMessage → OutMessage
reply_for (readdir s) m = with_buffer s.size m
reply_for (getxattr s name) m = with_buffer s.size m
reply_for (listxattr s) m = with_buffer s.size m
reply_for _ m = m
