-- ===== src/Connection/Logging.antt =====
-- connection.go: what `Reply` logs and calls. A callback is a number.
use fuse.Base.{ℕ, Bool, true, false, ◌||◌, Option, none, some, ◌==◌, if◌then◌else◌}
use fuse.Fuseops.{Op, look_up_inode, get_xattr, list_xattr, unknown, read_file, write_file}
use fuse.Conversions.Responses.{OpError, errno}

-- The numbers of package syscall; `ENODATA` is the one that extended attributes use.
abbrev pub enoent : ℕ
enoent = 2

abbrev pub erange : ℕ
erange = 34

abbrev pub enosys : ℕ
enosys = 38

abbrev pub enodata : ℕ
enodata = 61

unfoldable pub is_expected : Op → OpError → Bool
is_expected (look_up_inode o) (errno n) = n == enoent
is_expected (get_xattr o) (errno n) = n == enosys || n == enodata || n == erange
is_expected (list_xattr o) (errno n) = n == enosys || n == enodata || n == erange
is_expected (unknown o) (errno n) = n == enosys
is_expected _ _ = false

unfoldable pub should_log_error : Bool → Op → Option OpError → Bool
unfolding is_expected
should_log_error has_logger op none = false
should_log_error false op (some e) = false
should_log_error true op (some e) = if is_expected op e then false else true

unfoldable pub callback_for_op : Op → Option ℕ
callback_for_op (read_file o) = o.callback
callback_for_op (write_file o) = o.callback
callback_for_op _ = none
