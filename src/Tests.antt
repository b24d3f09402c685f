-- ===== src/Tests.antt =====
-- The theorems at concrete inputs, by the part of the program.
pub mod Fixtures
mod Rings
mod Nets
mod Sessions
mod Stacks
mod Threads
mod Profiles
mod Pools
mod Packets
mod Messages
mod Auctions
