-- ===== src/Realtime.antt =====
-- The realtime part of the visual snapshot agent: the frame buffer, the queue of events that wait for
-- context, the window scheduler and the event detector
-- (src/robolineage_shared_agents/visual_snapshot/realtime).
pub mod Frames
pub mod Pending
pub mod Event
pub mod Detector
pub mod Represent
pub mod Scheduler
mod Tests
