-- ===== src/Tests.antt =====
-- The theorems at concrete inputs.
mod Script
mod Toy
mod Memory
mod Accounts
mod Openings
mod Sockets
mod Words
mod Frames
mod Sessions
mod Answers
mod Settling
