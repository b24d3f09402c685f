-- ===== src/Auction.antt =====
-- AuctionServer of NewNameAuction/AuctionServer.h and AuctionServer.cpp, a part to a module.
pub mod Text
pub mod State
pub mod Message
pub mod OwnList
pub mod Handlers
pub mod InitPackets
pub mod Register
pub mod Update
pub mod Logic
pub mod Db
pub mod Bid
pub mod Growth
pub mod Search
pub mod QueueKept
pub mod Drain
pub mod Idle
pub mod Reach
