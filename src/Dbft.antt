-- ===== src/Dbft.antt =====
-- consensus/policy/dbft/dbft-core.go and dbft.go: the policy of bft with a change of view and requests
-- for missing blocks. The code that it has in common with bft-core.go stands there in the same words, so
-- that its definitions here apply those of Bft to the common fields.
pub mod State
pub mod Handlers
pub mod Blocks
pub mod ChangingView
pub mod Dispatch
pub mod Policy
mod Examples
