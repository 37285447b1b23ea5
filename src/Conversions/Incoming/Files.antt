-- ===== src/Conversions/Incoming/Files.antt =====
-- conversions.go: `convertInMessage` for requests on open files and directories.
use fuse.Base.{ℕ, Bool, true, false, none, [], length, ltb}
use fuse.Kernel.Protocol.{Protocol}
use fuse.Kernel.Layout.{size_of}
use fuse.Kernel.Requests.{read_in_size, write_in_size}
use fuse.Kernel.Requests.Names.{sync_fs_in}
use fuse.Kernel.Requests.Files.{
  open_in, decode_open_in, decode_read_in, decode_write_in, release_in, decode_release_in, flush_in,
  decode_flush_in, fsync_in, decode_fsync_in, fallocate_in, decode_fallocate_in, listxattr_in,
  decode_listxattr_in,
}
use fuse.Buffer.InMessage.{InHeader}
use fuse.Fuseops.{
  Op, open_dir, read_dir, release_dir_handle, open_file, read_file, write_file, sync_file,
  flush_file, release_file_handle, fallocate, list_xattr, sync_fs,
}
use fuse.Fuseops.Types.{nil, Buffer}
use fuse.Conversions.Exchange.{
  M, ◌>>=◌, ◌>>◌, pure, reject_if, take_struct, take_rest, grow_buffer, free_buffer, op_context,
}
use fuse.Conversions.Incoming.Names.{grown}

unfoldable pub convert_open : InHeader → M Op
convert_open h = do
  b ← take_struct (size_of open_in)
  pure (
      open_file (record {
        inode = h.nodeid;
        handle = 0;
        keep_page_cache = false;
        use_direct_io = false;
        open_flags = (decode_open_in b).flags;
        op_context = op_context h;
      }))

unfoldable pub convert_opendir : InHeader → M Op
convert_opendir h = pure (
    open_dir (record {
      inode = h.nodeid;
      handle = 0;
      op_context = op_context h;
      cache_dir = false;
      keep_cache = false;
    }))

-- Vectored reads allocate no buffer.
unfoldable pub read_buffer : Bool → ℕ → M Buffer
read_buffer true n = pure nil
read_buffer false n = free_buffer n

unfoldable pub convert_read : Bool → Protocol → InHeader → M Op
unfolding read_buffer
convert_read use_vectored_read p h = do
  b ← take_struct (read_in_size p)
  dst ← read_buffer use_vectored_read (decode_read_in b).size
  pure (
      read_file (record {
        inode = h.nodeid;
        handle = (decode_read_in b).fh;
        offset = (decode_read_in b).offset;
        size = (decode_read_in b).size;
        dst = dst;
        payload = [];
        bytes_read = 0;
        op_context = op_context h;
        callback = none;
      }))

-- `Grow` does not return `nil`, so its check is not reached.
unfoldable pub convert_readdir : Protocol → InHeader → M Op
convert_readdir p h = do
  b ← take_struct (read_in_size p)
  dst ← grow_buffer (decode_read_in b).size
  pure (
      read_dir (record {
        inode = h.nodeid;
        handle = (decode_read_in b).fh;
        offset = (decode_read_in b).offset;
        dst = dst;
        bytes_read = 0;
        op_context = op_context h;
      }))

unfoldable pub convert_release : InHeader → M Op
convert_release h = do
  b ← take_struct (size_of release_in)
  pure (
      release_file_handle (record { handle = (decode_release_in b).fh; op_context = op_context h }))

unfoldable pub convert_releasedir : InHeader → M Op
convert_releasedir h = do
  b ← take_struct (size_of release_in)
  pure
      (release_dir_handle (record { handle = (decode_release_in b).fh; op_context = op_context h }))

-- The data are all that is left, which may be more than the size says.
unfoldable pub convert_write : Protocol → InHeader → M Op
convert_write p h = do
  b ← take_struct (write_in_size p)
  payload ← take_rest
  reject_if (ltb (length payload) (decode_write_in b).size)
  pure (
      write_file (record {
        inode = h.nodeid;
        handle = (decode_write_in b).fh;
        offset = (decode_write_in b).offset;
        payload = payload;
        op_context = op_context h;
        callback = none;
      }))

unfoldable pub convert_fsync : InHeader → M Op
convert_fsync h = do
  b ← take_struct (size_of fsync_in)
  pure (
      sync_file
        (record { inode = h.nodeid; handle = (decode_fsync_in b).fh; op_context = op_context h }))

-- Of the context only the process ID is given.
unfoldable pub convert_syncfs : InHeader → M Op
convert_syncfs h = do
  b ← take_struct (size_of sync_fs_in)
  pure (
      sync_fs
        (record { inode = h.nodeid; op_context = record { fuse_id = 0; pid = h.pid; uid = 0 } }))

unfoldable pub convert_flush : InHeader → M Op
convert_flush h = do
  b ← take_struct (size_of flush_in)
  pure (
      flush_file
        (record { inode = h.nodeid; handle = (decode_flush_in b).fh; op_context = op_context h }))

unfoldable pub convert_fallocate : InHeader → M Op
convert_fallocate h = do
  b ← take_struct (size_of fallocate_in)
  pure (
      fallocate (record {
        inode = h.nodeid;
        handle = (decode_fallocate_in b).fh;
        offset = (decode_fallocate_in b).offset;
        length = (decode_fallocate_in b).length;
        mode = (decode_fallocate_in b).mode;
        op_context = op_context h;
      }))

unfoldable pub convert_listxattr : InHeader → M Op
unfolding grown
convert_listxattr h = do
  b ← take_struct (size_of listxattr_in)
  dst ← grown (decode_listxattr_in b).size
  pure (
      list_xattr
        (record { inode = h.nodeid; dst = dst; bytes_read = 0; op_context = op_context h }))
