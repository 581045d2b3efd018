-- ===== src/Ffi.antt =====
-- websocket/src/ffi: the client behind a C interface.
pub mod Common
pub mod Client
mod Tests
