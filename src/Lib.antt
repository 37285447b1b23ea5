-- ===== src/Lib.antt =====
-- fuse: a Go library that serves file systems to the kernel over /dev/fuse.
--
-- The kernel writes requests to a device. The connection (connection.go) reads one at a time into an
-- incoming message (internal/buffer/in_message.go), converts it to an op, and hands the op with a
-- context to the file system's server; the reply is built in an outgoing message
-- (internal/buffer/out_message.go). Both kinds of messages are reused through freelists
-- (internal/freelist/freelist.go). The version of the protocol decides which structures are spoken
-- (internal/fusekernel/protocol.go). A file system is a set of handlers; samples/memfs is the one in
-- memory, whose directories answer reads with entries in the kernel's format (fuseutil/dirent.go).
--
-- The files, by the code that they model:
--   Base, Base/*: the helpers that the parts share: lists, tests, panics, bytes, machine words.
--   Freelist: internal/freelist/freelist.go. A pointer is an element of any type.
--   Kernel/Protocol: internal/fusekernel/protocol.go.
--   Kernel/Layout, Kernel/Requests, Kernel/Responses: the opcodes and structures of
--     internal/fusekernel/fuse_kernel.go, as the widths of their fields; Requests/Encode is how a
--     kernel lays them out.
--   Fuseops: the ops of fuseops/ops.go and ops.go, one record for each and one type of them all.
--   Buffer/InMessage: `Init`, `Consume`, `ConsumeBytes` and `GetFree`. A slice of the storage is its
--     offset and its length, so that aliasing shows.
--   Buffer/OutMessage: `Reset`, `Append`, `Grow`, `ShrinkTo` and `Len`. The scatter-gather list's
--     first segment is the header itself.
--   Dirent: `WriteDirent`, and what a reader makes of the bytes (Dirent/Parsing).
--   Errors: errors.go.
--   Memfs/Inode: samples/memfs/inode.go, one function for each method; `IsValid` of Invariant is
--     `CheckInvariants` and one clause more, that unused entries are blank. Directory, Writes,
--     Resize, Listing and Reader are about names, reads and writes, sizes, one `ReadDir`, and a
--     whole listing.
--   Forgetfs: samples/forgetfs/forget_fs.go, which counts lookups; Ledger and Runs compare it with what
--     a kernel has looked up and not forgotten, and Ending with its own checks.
--   Fuseutil: fuseutil/file_system.go, the interface as a record of methods over any state, and the
--     dispatch of an op to its method and the reply to it; Refusing is about
--     fuseutil/not_implemented_file_system.go, and Forgetting about batches of forgets.
--   Memfs/Xattr: the map of extended attributes.
--   Memfs/Store, Memfs/Handlers: samples/memfs/memfs.go. The state is a record; a handler is a
--     function from the state to a panic, or to a result or error with the new state. An inode is
--     reached by its ID, at which each inode stands once, so a write through a pointer is a write at
--     the ID. The lock is held for a whole handler, so that a handler is one step.
--   Connection/Requests: the map of cancellation functions under `beginOp`, `finishOp` and
--     `handleInterrupt`; Trace runs these in any order, and Contexts follows the contexts.
--   Connection/Init: the negotiation of `Init`.
--   Connection/Messages: freelists.go, `readMessage` and `writeMessage`.
--   Connection/Ops: `ReadOp` and `Reply`, over the messages, the requests in flight and the
--     conversions. The context that is made and the results of the system calls are arguments.
--     Reads is about requests and Interrupts about INTERRUPT, which `ReadOp` handles itself.
--   Conversions: conversions.go. The modes of files stand in the root. Incoming is
--     `convertInMessage`, with one function for each case; Exchange has its steps, which read a
--     message and grow the reply. Requests is the kernel's side, the bytes of each request, and
--     Requests/Ops the op that it stands for. Outgoing and Responses are the conversions to
--     structures and `kernelResponse`; Replies has the bytes that are sent. Panics and Times are
--     about what can panic, and about the ranges of times and sizes.
--   Connection/Logging: `shouldLogError` and `callbackForOp`.
--
-- Numbers are natural numbers. A uint64 or int64 is its bit pattern, with the wrap-around written
-- out; the theorems on contents take sizes below 2^63, which is what a slice can have. Times are
-- numbers, and `clock i` is the i-th reading of the clock in a call. A structure in a message is read
-- field by field from its bytes, little end first, as on the platforms of the build. The loop of
-- `readMessage` runs over the list of results that the device will give; that of `ReadOp` has fuel,
-- for which one more than there are such results is enough, since only an interrupt that was read
-- makes it run again; the listing of a directory has the number of rounds as an argument, and one more
-- than the number of entries is enough.
--
-- Not modelled: mounting and unmounting, which are system calls, the goroutines of `ServeOps`
-- (fuseutil/file_system.go), logs (debug.go), the structures of requests that are not converted, the
-- samples other than memfs and forgetfs, and the build for macOS. The standard library's contexts are
-- numbers that the caller of `begin_op` supplies, and `time.Now` is an argument of the conversions.
pub mod Base
pub mod Forgetfs
pub mod Freelist
pub mod Kernel
pub mod Buffer
pub mod Dirent
pub mod Memfs
pub mod Errors
pub mod Fuseops
pub mod Connection
pub mod Conversions
pub mod Fuseutil
