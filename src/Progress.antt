-- ===== src/Progress.antt =====
-- The progress of the users in the core service: the badges
-- (services/core/src/utils/badges.ts) and the consumers of the sandbox's events
-- (services/core/src/modules/progress/consumers.ts).
pub mod State
pub mod Badges
pub mod Consumers
