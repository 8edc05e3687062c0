-- ===== src/Services.antt =====
-- The services that the program calls and does not implement: the Prisma client over Postgres and
-- the Redis client. They are parameters of the model: a record of the operations that the code
-- calls, with their documented behaviour. `Services/Samples.antt` shows that the records can be met.
mod Database
mod Cache
mod Samples
mod Queries
pub use Database.*
pub use Cache.*
pub use Samples.*
pub use Queries.*
unfoldable pub use Samples.{find}
