-- ===== src/Kernel/Requests.antt =====
-- internal/fusekernel/fuse_kernel.go: the opcodes that are converted, and the sizes of structures by
-- the version of the protocol.
pub mod Names
pub mod Files
pub mod Encode
pub mod Numbers
use fuse.Base.{ℕ, ◌+◌, Option, none, some, ◌==◌, if◌then◌else◌}
use fuse.Kernel.Protocol.{Protocol, version, lt}
use fuse.Kernel.Layout.{size_of, offset_of}
use fuse.Kernel.Requests.Names.{mkdir_in, mknod_in, create_in}
use fuse.Kernel.Requests.Files.{read_in, write_in}

pub data Opcode : Type 0 where
  lookup forget getattr setattr readlink symlink mknod mkdir unlink rmdir rename link open_file :
      Opcode
  read write statfs release fsync setxattr getxattr listxattr removexattr flush init opendir :
      Opcode
  readdir releasedir fsyncdir create interrupt batch_forget fallocate sync_fs : Opcode

unfoldable pub opcode_number : Opcode → ℕ
opcode_number lookup = 1
opcode_number forget = 2
opcode_number getattr = 3
opcode_number setattr = 4
opcode_number readlink = 5
opcode_number symlink = 6
opcode_number mknod = 8
opcode_number mkdir = 9
opcode_number unlink = 10
opcode_number rmdir = 11
opcode_number rename = 12
opcode_number link = 13
opcode_number open_file = 14
opcode_number read = 15
opcode_number write = 16
opcode_number statfs = 17
opcode_number release = 18
opcode_number fsync = 20
opcode_number setxattr = 21
opcode_number getxattr = 22
opcode_number listxattr = 23
opcode_number removexattr = 24
opcode_number flush = 25
opcode_number init = 26
opcode_number opendir = 27
opcode_number readdir = 28
opcode_number releasedir = 29
opcode_number fsyncdir = 30
opcode_number create = 35
opcode_number interrupt = 36
opcode_number batch_forget = 42
opcode_number fallocate = 43
opcode_number sync_fs = 50

-- The opcode with a number, among those from which a message may come.
abbrev pub first_of : ℕ → Opcode → Option Opcode → Option Opcode
first_of n c others = if opcode_number c == n then some c else others

unfoldable pub opcode_of : ℕ → Option Opcode
unfolding opcode_number
opcode_of n = first_of n lookup (
    first_of n forget (
      first_of n getattr (
        first_of n setattr (
          first_of n readlink (
            first_of n symlink (
              first_of n mknod (
                first_of n mkdir (
                  first_of n unlink (
                    first_of n rmdir (
                      first_of n rename (
                        first_of n link (
                          first_of n open_file (
                            first_of n read (
                              first_of n write (
                                first_of n statfs (
                                  first_of n release (
                                    first_of n fsync (
                                      first_of n setxattr (
                                        first_of n getxattr (
                                          first_of n listxattr (
                                            first_of n removexattr (
                                              first_of n flush (
                                                first_of n init (
                                                  first_of n opendir (
                                                    first_of n readdir (
                                                      first_of n releasedir (
                                                        first_of n fsyncdir (
                                                          first_of n create (
                                                            first_of n interrupt (
                                                            first_of n batch_forget (
                                                            first_of n fallocate (
                                                            first_of n sync_fs
                                                            none))))))))))))))))))))))))))))))))

unfoldable pub mkdir_in_size : Protocol → ℕ
unfolding lt
mkdir_in_size p = if lt p (version 7 12) then offset_of mkdir_in 1 + 4 else size_of mkdir_in

unfoldable pub mknod_in_size : Protocol → ℕ
unfolding lt
mknod_in_size p = if lt p (version 7 12) then offset_of mknod_in 2 else size_of mknod_in

unfoldable pub create_in_size : Protocol → ℕ
unfolding lt
create_in_size p = if lt p (version 7 12) then offset_of create_in 2 else size_of create_in

unfoldable pub read_in_size : Protocol → ℕ
unfolding lt
read_in_size p = if lt p (version 7 9) then offset_of read_in 3 + 4 else size_of read_in

unfoldable pub write_in_size : Protocol → ℕ
unfolding lt
write_in_size p = if lt p (version 7 9) then offset_of write_in 4 else size_of write_in
