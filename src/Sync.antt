-- ===== src/Sync.antt =====
-- websocket/src/sync: the client.
pub mod Tcp
pub mod Deps
pub mod State
pub mod Exec
pub mod Connect
pub mod Send
pub mod Input
pub mod Output
pub mod EventLoop
pub mod Drop
pub mod Moves
pub mod Channel
pub mod Tests
