-- ===== src/Messages.antt =====
-- messages.c: messages that wait in the database, and their delivery to a bound client.
pub mod Looper
pub mod Deliver
pub mod Known
pub mod Order
