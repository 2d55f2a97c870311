-- ===== src/Packet.antt =====
-- packet.c: answers, and the dispatch of a request to its method.
pub mod Respond
pub mod Dispatch
pub mod Table
pub mod Wire
