-- ===== src/Fbft.antt =====
-- consensus/policy/fbft: the handlers of one node. Each takes the state of the core and gives the new
-- state with what it does to its surroundings, in order.
pub mod State
pub mod Fixture
pub mod Quorum
pub mod Genuine
pub mod Leader
pub mod Sync
pub mod Replica
pub mod ViewChanging
pub mod Joining
pub mod Dispatch
mod Examples
pub mod Policy
