-- ===== src/Kernel/Requests/Numbers.antt =====
-- internal/fusekernel/fuse_kernel.go: the numbers of the opcodes tell them apart.
use fuse.Base.{ℕ, ◌≡◌, refl, ◌==◌, Option, none, some, Bool-cases, inl, inr, arith}
use fuse.Kernel.Requests.{
  Opcode, opcode_number, opcode_of, first_of, lookup, forget, getattr, setattr, readlink, symlink,
  mknod, mkdir, unlink, rmdir, rename, link, open_file, read, write, statfs, release, fsync,
  setxattr, getxattr, listxattr, removexattr, flush, init, opendir, readdir, releasedir, fsyncdir,
  create, interrupt, batch_forget, fallocate, sync_fs,
}

pub opcode_of-number : (c : Opcode) → opcode_of (opcode_number c) ≡ some c
unfolding opcode_of
opcode_of-number lookup = refl
opcode_of-number forget = refl
opcode_of-number getattr = refl
opcode_of-number setattr = refl
opcode_of-number readlink = refl
opcode_of-number symlink = refl
opcode_of-number mknod = refl
opcode_of-number mkdir = refl
opcode_of-number unlink = refl
opcode_of-number rmdir = refl
opcode_of-number rename = refl
opcode_of-number link = refl
opcode_of-number open_file = refl
opcode_of-number read = refl
opcode_of-number write = refl
opcode_of-number statfs = refl
opcode_of-number release = refl
opcode_of-number fsync = refl
opcode_of-number setxattr = refl
opcode_of-number getxattr = refl
opcode_of-number listxattr = refl
opcode_of-number removexattr = refl
opcode_of-number flush = refl
opcode_of-number init = refl
opcode_of-number opendir = refl
opcode_of-number readdir = refl
opcode_of-number releasedir = refl
opcode_of-number fsyncdir = refl
opcode_of-number create = refl
opcode_of-number interrupt = refl
opcode_of-number batch_forget = refl
opcode_of-number fallocate = refl
opcode_of-number sync_fs = refl

-- The opcode that was found, if any, has the number.
abbrev pub IsNumbered : ℕ → Option Opcode → Type 0
IsNumbered n none = Unit
IsNumbered n (some c) = opcode_number c ≡ n

first_of-IsNumbered :
    (n : ℕ) (c : Opcode) (others : Option Opcode)
    → IsNumbered n others
    → IsNumbered n (first_of n c others)
first_of-IsNumbered n c others h = elim (Bool-cases (opcode_number c == n)) [
  | inl is_c ↦ rw is_c (ground arith)
  | inr is_other ↦ rw is_other h
]

pub opcode_of-IsNumbered : (n : ℕ) → IsNumbered n (opcode_of n)
unfolding opcode_of
opcode_of-IsNumbered n = first_of-IsNumbered n lookup _ (
    first_of-IsNumbered n forget _ (
      first_of-IsNumbered n getattr _ (
        first_of-IsNumbered n setattr _ (
          first_of-IsNumbered n readlink _ (
            first_of-IsNumbered n symlink _ (
              first_of-IsNumbered n mknod _ (
                first_of-IsNumbered n mkdir _ (
                  first_of-IsNumbered n unlink _ (
                    first_of-IsNumbered n rmdir _ (
                      first_of-IsNumbered n rename _ (
                        first_of-IsNumbered n link _ (
                          first_of-IsNumbered n open_file _ (
                            first_of-IsNumbered n read _ (
                              first_of-IsNumbered n write _ (
                                first_of-IsNumbered n statfs _ (
                                  first_of-IsNumbered n release _ (
                                    first_of-IsNumbered n fsync _ (
                                      first_of-IsNumbered n setxattr _ (
                                        first_of-IsNumbered n getxattr _ (
                                          first_of-IsNumbered n listxattr _ (
                                            first_of-IsNumbered n removexattr _ (
                                              first_of-IsNumbered n flush _ (
                                                first_of-IsNumbered n init _ (
                                                  first_of-IsNumbered n opendir _ (
                                                    first_of-IsNumbered n readdir _ (
                                                      first_of-IsNumbered n releasedir _ (
                                                        first_of-IsNumbered n fsyncdir _ (
                                                          first_of-IsNumbered n create _ (
                                                            first_of-IsNumbered n interrupt _ (
                                                            first_of-IsNumbered n batch_forget _ (
                                                            first_of-IsNumbered n fallocate _ (
                                                            first_of-IsNumbered n sync_fs _
                                                            (tt)))))))))))))))))))))))))))))))))
