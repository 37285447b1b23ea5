-- ===== src/Buffer.antt =====
-- internal/buffer: the messages that are read from the kernel and written to it.
pub mod InMessage
pub mod OutMessage
mod Tests
