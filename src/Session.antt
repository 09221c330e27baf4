-- ===== src/Session.antt =====
-- The session service: the lifecycle table, the runtime state machine, the registry of the one
-- session, its event log, the control endpoint and the snapshot dispatcher
-- (src/robolineage_session, src/robolineage_contracts/session).
pub mod State
pub mod Registry
pub mod Events
pub mod Service
pub mod Api
pub mod Dispatcher
mod Tests
