-- ===== src/Memfs/Handlers.antt =====
-- samples/memfs/memfs.go: the handlers of the file system's operations. An operation's arguments
-- are the fields that its handler reads, its result is what the handler fills in; `clock i` is the
-- i-th reading of `time.Now()` in the call, in nanoseconds. The lock of the file system is held for
-- the whole of each handler, so a handler is one step.
mod Names
mod Files
pub mod Attributes
pub mod Contents
pub mod Creation
mod Tests
unfoldable pub use Names.*
unfoldable pub use Files.*
