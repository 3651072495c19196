-- ===== src/BridgeBinding.antt =====
-- src/bridge_binding_ledger.rs: which project a chat room is bound to and which session of an agent a
-- thread is bound to, the projects that were proposed to rooms, and the chats of the owner.
pub mod Records
pub mod Threads
pub mod Rooms
pub mod Proposals
pub mod OwnerChats
pub mod Store
pub mod Listings
mod Fixtures
