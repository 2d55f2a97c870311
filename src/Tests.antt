-- ===== src/Tests.antt =====
-- Theorems applied at concrete inputs, over a small platform that meets the laws.
mod Toy
mod States
mod Answers
mod Wire
mod Damage
mod Session
mod Running
mod Requests
mod Terminal
mod Delivery
mod Posted
