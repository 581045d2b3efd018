-- ===== src/Core.antt =====
-- websocket/src/core: numbers from bytes, and reading from a socket.
pub mod Binary
pub mod Net
