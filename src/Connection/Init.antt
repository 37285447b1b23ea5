-- ===== src/Connection/Init.antt =====
-- connection.go: `Connection.Init`, after the op was read, with the fields of ops.go's `initOp` and
-- of the `MountConfig` that it uses. A `fusekernel.InitFlags` is the set of its bits: a test of the
-- bit with a number. What is modelled of the calls of `Reply` is the error that they are given.
pub mod Negotiation
use fuse.Base.{ℕ, ◌^◌, Bool, false, ◌&&◌, ◌||◌, not, ◌==◌, Option, none, some, if◌then◌else◌}
use fuse.Kernel.Protocol.{Protocol, version, lt}
pub use fuse.Fuseops.Internal.{InitFlags, InitOp}
use fuse.Buffer.InMessage.{max_write_size}

pub record MountConfig : Type 0 where
  pub enable_async_reads : Bool
  pub disable_writeback_caching : Bool
  pub enable_symlink_caching : Bool
  pub enable_no_open_support : Bool
  pub enable_no_opendir_support : Bool
  pub enable_parallel_dir_ops : Bool
  pub enable_atomic_trunc : Bool

abbrev pub init_async_read : ℕ
init_async_read = 0

abbrev pub init_atomic_trunc : ℕ
init_atomic_trunc = 3

abbrev pub init_big_writes : ℕ
init_big_writes = 5

abbrev pub init_writeback_cache : ℕ
init_writeback_cache = 16

abbrev pub init_no_open_support : ℕ
init_no_open_support = 17

abbrev pub init_parallel_dir_ops : ℕ
init_parallel_dir_ops = 18

abbrev pub init_max_pages : ℕ
init_max_pages = 22

abbrev pub init_cache_symlinks : ℕ
init_cache_symlinks = 23

abbrev pub init_no_opendir_support : ℕ
init_no_opendir_support = 24

-- `Flags |= bit`, and the same under an `if`.
abbrev pub with_flag : ℕ → InitFlags → InitFlags
with_flag bit flags j = j == bit || flags j

abbrev pub with_flag_if : Bool → ℕ → InitFlags → InitFlags
with_flag_if b bit flags j = if b then j == bit || flags j else flags j

abbrev pub min_version : Protocol
min_version = version 7 18

abbrev pub max_version : Protocol
max_version = version 7 34

-- The downgrade.
unfoldable pub negotiate : Protocol → Protocol
negotiate kernel = if lt kernel max_version then kernel else max_version

-- The flags of the response, by those that the kernel offers.
unfoldable pub response_flags : MountConfig → InitFlags → InitFlags
response_flags cfg offered =
    let f0 : InitFlags = with_flag init_big_writes (λ _. false) in
    let f1 : InitFlags = with_flag_if cfg.enable_async_reads init_async_read f0 in
    let f2 : InitFlags = with_flag init_max_pages f1 in
    let f3 : InitFlags = with_flag_if (not cfg.disable_writeback_caching) init_writeback_cache f2 in
    let f4 : InitFlags =
      with_flag_if (cfg.enable_symlink_caching && offered init_cache_symlinks) init_cache_symlinks
        f3 in
    let f5 : InitFlags =
      with_flag_if (cfg.enable_no_open_support && offered init_no_open_support) init_no_open_support
        f4 in
    let f6 : InitFlags =
      with_flag_if (cfg.enable_no_opendir_support && offered init_no_opendir_support)
        init_no_opendir_support f5 in
    let f7 : InitFlags = with_flag_if cfg.enable_parallel_dir_ops init_parallel_dir_ops f6 in
    with_flag_if cfg.enable_atomic_trunc init_atomic_trunc f7

-- Another op, or too old a kernel, gets `EPROTO` and fails the mount.
pub data InitResult : Type 0 where
  wrong_op : InitResult
  too_old : Protocol → InitResult
  replied : Protocol → InitOp → InitResult

-- `none` is an op that is no `*initOp`.
unfoldable pub init : MountConfig → Option InitOp → InitResult
unfolding negotiate response_flags
init cfg none = wrong_op
init cfg (some op) =
    if lt op.kernel min_version
    then too_old op.kernel
    else replied (negotiate op.kernel) (record op {
      flags = response_flags cfg op.flags;
      library = negotiate op.kernel;
      max_readahead = 2 ^ 20;
      max_write = max_write_size;
      max_pages = 256;
    })
