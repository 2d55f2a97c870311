-- ===== src/Tokens.antt =====
-- tokens.c: the tokens that stand for a login, in memory and in the database.
pub mod Pool
pub mod Registry
pub mod Auth
pub mod Lookup
