-- ===== src/Net.antt =====
-- CNetServer of NewNameAuction/CNetServer.h and CNetServer.cpp, a part to a module.
pub mod Receive
pub mod State
pub mod Sessions
pub mod Accept
pub mod Sending
pub mod Worker
pub mod Slots
pub mod Reuse
pub mod Release
pub mod Stream
pub mod Reception
pub mod Threads
