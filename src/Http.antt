-- ===== src/Http.antt =====
-- websocket/src/http: the request that opens the handshake and the response to it.
pub mod Headers
pub mod Request
pub mod Response
pub mod Tests
