-- ===== src/Kernel.antt =====
-- internal/fusekernel: the protocol between the library and the kernel.
pub mod Protocol
pub mod Layout
pub mod Requests
pub mod Responses
