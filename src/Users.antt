-- ===== src/Users.antt =====
-- users.c: the users in memory, their reference counts, and their binding to clients.
pub mod Refs
pub mod Load
pub mod Frame
pub mod Unchanged
pub mod Rebind
pub mod Expiry
