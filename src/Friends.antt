-- ===== src/Friends.antt =====
-- friends.c: the cached list of friends of a user.
pub mod Cache
pub mod Load
pub mod Refresh
pub mod Loaded
