-- ===== src/Bft.antt =====
-- consensus/policy/bft/bft-core.go and bft.go: the policy that collects the responses to one proposal
-- and lets the master order its commit. A block is a value: what the caller of ToConsensus does to
-- its block afterwards is not seen in the validator's entry for it.
pub mod State
pub mod Rounds
pub mod Commits
pub mod Dispatch
pub mod Policy
pub mod Steps
pub mod Locking
mod Examples
