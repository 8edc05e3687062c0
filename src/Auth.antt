-- ===== src/Auth.antt =====
-- The auth service (services/auth): its tables, its Redis keys, the sessions and the handlers of
-- an account.
pub mod State
pub mod Session
pub mod Login
pub mod Refresh
pub mod Account
pub mod Ending
pub mod Revocation
pub mod Profile
pub mod Outbox
