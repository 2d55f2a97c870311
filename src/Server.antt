-- ===== src/Server.antt =====
-- server.c: clients that connect, send and leave, and the loop of the server.
pub mod Clients
pub mod Receive
pub mod Loop
pub mod Main
pub mod Stream
pub mod Reading
pub mod Accepting
pub mod Names
pub mod Stale
pub mod Damage
