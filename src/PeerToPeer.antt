-- ===== src/PeerToPeer.antt =====
-- The Windows version of the node, Lab 7 Windows/PeerToPeer/PeerToPeer.c and networking.c.
pub mod ByteOrder
pub mod Transfer
pub mod Sync
pub mod Pool
pub mod Syncer
pub mod FileList
pub mod Retrieve
pub mod Messages
pub mod Networking
pub mod Startup
mod Samples
mod Tests
