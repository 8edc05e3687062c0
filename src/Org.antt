-- ===== src/Org.antt =====
-- services/core/src/modules/org/org.routes.ts: organisations, their members, invitations, scenarios
-- and assigned paths.
pub mod State
pub mod Access
pub mod Seats
pub mod Work
pub mod Matrix
pub mod Writes
