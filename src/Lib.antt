-- ===== src/Lib.antt =====
-- Devops.Lab: users start challenges, each in a sandbox of its own; the core service keeps the
-- sessions and the progress.
--
-- The parts, and the files that model them:
--   Prelude: tests, lists, integers and equality that the other files share.
--   Services: the Prisma client and the Redis client as interfaces with laws. They are parameters
--   of everything below: neither is code of this repository. Samples.antt has an instance of each.
--   Core: services/core/src/modules/challenge/challenge.routes.ts and
--   services/core/src/plugins/outbox-poller.ts. Rows.antt has the tables' rows
--   (packages/db/prisma/schema.prisma) and the messages (packages/messaging/types.ts), State.antt the
--   state of the service and the inline publication, Probe.antt the circuit breaker of the health
--   probe, Start.antt POST /challenges/:id/start, Sessions.antt the end of a session, Poller.antt
--   a cycle of the outbox poller, Trial.antt the guest trial, and Reaper.antt a cycle of
--   services/core/src/plugins/session-reaper.ts. Delivered.antt states the promise of the outbox that
--   the handlers and the poller share, on the state of State.antt.
--   Streak: services/core/src/utils/streak.ts.
--   Progress: services/core/src/utils/badges.ts (Badges.antt) and
--   services/core/src/modules/progress/consumers.ts (Consumers.antt), over the tables of State.antt.
--   Auth: the auth service. State.antt has its rows and Redis keys, Session.antt
--   services/auth/src/utils/session.ts and redis-safe.ts, Login.antt the login with its lockout and
--   services/auth/src/routes/mfa.ts, Refresh.antt POST /refresh, and Account.antt,
--   Ending.antt and Profile.antt the other routes of services/auth/src/routes/account.ts, and
--   Outbox.antt a cycle of services/auth/src/plugins/outbox.ts.
--   Refresh/Tokens.antt has the abstract tokens that the Redis keys stand for: dead, live, or rotated
--   at a time.
--   Org: services/core/src/modules/org/org.routes.ts. State.antt has the rows, Access.antt the guard,
--   Seats.antt organisations and invitations, Work.antt scenarios and assignments, and Matrix.antt
--   the reports. Writes.antt has the writes of an organisation as one type.
--   Quiz: services/core/src/modules/content/quiz.routes.ts.
--   ChallengeLists: services/core/src/modules/content/list.routes.ts.
--   Messaging: packages/messaging/rabbitmq.ts (Rabbit.antt, a machine whose events are the callbacks
--   and the calls; each attempt to reconnect says which queues the channel then consumes) and packages/messaging/kafka.ts (Kafka.antt); Solves.antt puts the progress
--   consumers under the attempts of the latter.
--   Social: the pages of challenges and the social graph of challenge.routes.ts (Catalog.antt,
--   Toggles.antt, Feed.antt, Profiles.antt), services/core/src/modules/social/comment.routes.ts (Comments.antt) and
--   share.routes.ts (Shares.antt), over the tables of State.antt.
--   Web: apps/web/src/lib/useTerminalMachine.ts (Terminal.antt, a machine whose events are the parts
--   of the callbacks between their awaits, in any order) and apps/web/src/lib/guestRoadmap.ts
--   (Roadmap.antt), and apps/web/src/lib/apiClient.ts (Client.antt, with the calls on the wire, those
--   that wait for a refresh, and the settled ones). What the storage of the browser holds may be the
--   text of an array or of null; a slug is no index of an array and no name that every value has.
--   Tests: every theorem below that has a hypothesis or a binder, at a concrete state.
--
-- A handler is a function from its request (with what the outside answers: the clock, the fresh
-- identifiers, the brokers, a write that throws) and the state to the new state and its reply. The
-- clients of packages/db/index.ts give every operation a transaction of its own, so the two writes of
-- an array transaction of the core service may each fail alone (session_ok, event_ok), and of those of
-- an interactive transaction of the auth and organisation routes a first part may be written
-- (writes, how many of them succeed). Loops are structural recursion, so no fuel is needed.
-- Numbers of the database are natural numbers; times are milliseconds since the epoch.
--
-- In the auth service the hashes (sha256, argon2), the check of a one-time code (otplib) and the
-- verification of a JWT are parameters or parts of a request: they are no code of this repository.
--
-- Not modelled: calls of Redis that throw outside the wrappers of redis-safe.ts, OAuth, the CSV
-- export of an organisation, the leaderboard and dashboard routes, the pages of the
-- web application, the pings and acknowledgements of the brokers, logging, metrics,
-- texts of replies, and two requests at once (a handler runs as a whole). The poller reads the table
-- in the order of createdAt, which is taken to be the order of insertion.
pub mod Prelude
pub mod Services
pub mod Core
pub mod Streak
pub mod Progress
pub mod Messaging
pub mod Social
pub mod Auth
pub mod Org
pub mod Quiz
pub mod ChallengeLists
pub mod Web
mod Tests
