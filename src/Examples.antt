-- ===== src/Examples.antt =====
-- The programs of examples: clients whose callback counts the texts it gets.
pub mod Shared
pub mod SimpleClient
pub mod ThreadClient
pub mod Tests
