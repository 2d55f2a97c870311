-- ===== src/Invariant.antt =====
-- Invariants of the server: rules for actions that keep a property of the state, and each action.
pub mod Rules
pub mod Leads
pub mod Owned
pub mod Sound
pub mod Named
pub mod Stable
pub mod Bears
pub mod Release
pub mod Users
pub mod Messages
pub mod Tokens
pub mod Methods
pub mod Answers
pub mod Consistent
pub mod Opening
pub mod Events
pub mod Accepting
pub mod Rounds
pub mod Firing
pub mod Idle
pub mod Reach
