-- ===== src/WsBasic.antt =====
-- websocket/src/ws_basic: the frames of RFC 6455 and their parts.
pub mod Bitflags
pub mod StatusCode
pub mod Mask
pub mod Header
pub mod Frame
