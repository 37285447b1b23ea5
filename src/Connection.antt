-- ===== src/Connection.antt =====
-- connection.go and freelists.go: the connection to the kernel.
pub mod Requests
pub mod Init
pub mod Messages
pub mod Logging
pub mod Ops
mod Tests
