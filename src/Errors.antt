-- ===== src/Errors.antt =====
-- errors.go, and the two numbers of package syscall that the file systems also return.
pub data Errno : Type 0 where
  eexist einval eio enoattr enoent enosys enotdir enotempty ebadf erange : Errno
