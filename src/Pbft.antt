-- ===== src/Pbft.antt =====
-- consensus/policy/pbft/tools: the timer and the event loop, which no policy uses.
pub mod Timer
pub mod Events
mod Examples
