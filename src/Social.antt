-- ===== src/Social.antt =====
-- services/core/src/modules/challenge/challenge.routes.ts, from the routes of a challenge's page to
-- the social graph, and comment.routes.ts.
mod State
pub mod Catalog
pub mod Toggles
pub mod Feed
pub mod Comments
pub mod Shares
pub mod Profiles
pub use State.*
