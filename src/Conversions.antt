-- ===== src/Conversions.antt =====
-- conversions.go: the file modes of Unix and of Go. A mode is a number; `|=` of a bit that is not set
-- yet adds the bit, and `&` with a mask of neighbouring bits is a remainder or a quotient.
pub mod Modes
pub mod Exchange
pub mod Incoming
pub mod Reading
pub mod Gives
pub mod Requests
pub mod Outgoing
pub mod Responses
pub mod Replies
mod Times
mod Panics
mod Tests
use fuse.Base.{ℕ, ◌+◌, ◌*◌, ◌/◌, ◌%◌, ◌^◌, Bool, ◌==◌, if◌then◌else◌}

abbrev pub has_bit : ℕ → ℕ → Bool
has_bit bit m = m / bit % 2 == 1

-- `m | bit` for a power of two.
abbrev pub with_bit : ℕ → ℕ → ℕ
with_bit bit m = if has_bit bit m then m else m + bit

-- Go's `os.ModeDir` and so on.
abbrev pub mode_dir : ℕ
mode_dir = 2 ^ 31

abbrev pub mode_symlink : ℕ
mode_symlink = 2 ^ 27

abbrev pub mode_device : ℕ
mode_device = 2 ^ 26

abbrev pub mode_named_pipe : ℕ
mode_named_pipe = 2 ^ 25

abbrev pub mode_socket : ℕ
mode_socket = 2 ^ 24

abbrev pub mode_setuid : ℕ
mode_setuid = 2 ^ 23

abbrev pub mode_setgid : ℕ
mode_setgid = 2 ^ 22

abbrev pub mode_char_device : ℕ
mode_char_device = 2 ^ 21

abbrev pub mode_sticky : ℕ
mode_sticky = 2 ^ 20

-- The four bits of `S_IFMT`, from 0 to 15, as Go's bits.
unfoldable pub go_type : ℕ → ℕ
go_type type =
    if type == 8
    then 0
    else if type == 4
    then mode_dir
    else if type == 2
    then mode_char_device + mode_device
    else if type == 6
    then mode_device
    else if type == 1
    then mode_named_pipe
    else if type == 10
    then mode_symlink
    else if type == 12
    then mode_socket
    else mode_device

-- `S_ISUID`, `S_ISGID` and `S_ISVTX` are 2048, 1024 and 512.
unfoldable pub convert_file_mode : ℕ → ℕ
unfolding go_type
convert_file_mode m =
    m % 512
    + go_type (m / 4096 % 16)
    + (if has_bit 2048 m then mode_setuid else 0)
    + (if has_bit 1024 m then mode_setgid else 0)
    + (if has_bit 512 m then mode_sticky else 0)

-- The `switch` on the type, as the bits of `S_IFMT`.
unfoldable pub unix_type : ℕ → ℕ
unix_type g =
    if has_bit mode_dir g
    then 4
    else if has_bit mode_device g
    then if has_bit mode_char_device g then 2 else 6
    else if has_bit mode_named_pipe g
    then 1
    else if has_bit mode_symlink g
    then 10
    else if has_bit mode_socket g
    then 12
    else 8

unfoldable pub convert_go_mode : ℕ → ℕ
unfolding unix_type
convert_go_mode g =
    g % 512
    + unix_type g * 4096
    + (if has_bit mode_setuid g then 2048 else 0)
    + (if has_bit mode_setgid g then 1024 else 0)
    + (if has_bit mode_sticky g then 512 else 0)
