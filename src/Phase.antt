-- ===== src/Phase.antt =====
-- How a raw phase proposal becomes the phase of a snapshot: temporal stabilisation and the phase
-- state machine, and the derived progress (src/robolineage_shared_agents/visual_snapshot).
pub mod Task
pub mod Machine
pub mod Stabilizer
pub mod Progress
mod Tests
