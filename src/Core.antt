-- ===== src/Core.antt =====
-- The core service (services/core): its tables, its Redis keys, its brokers, and the handlers
-- of the lab sessions, of the outbox and of the progress of the users.
pub mod Rows
pub mod State
pub mod Delivered
pub mod Probe
pub mod Start
pub mod Sessions
pub mod Poller
pub mod Trial
pub mod Reaper
