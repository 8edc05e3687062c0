-- ===== src/Core/Poller.antt =====
-- services/core/src/plugins/outbox-poller.ts: one cycle of the outbox poller, with its circuit
-- breaker. A row's identifier is its primary key.
pub mod Backoff
pub mod Retries
pub mod Keyed
pub mod Guarantee
pub mod Batches
pub mod Drain
use devops_lab.Prelude.{
  ℕ, ◌+◌, ◌*◌, min, Bool, true, false, ◌&&◌, ◌||◌, not, List, [], ◌∷◌, ◌++◌, nat_eq, string_eq,
  ◌==◌, String, ltb, leb, take, if◌then◌else◌,
}
use devops_lab.Services.{Prisma, Redis}
use devops_lab.Core.Rows.{
  OutboxEvent, Message, session_started, session_ended, other, Queue, provision_sandbox,
  terminate_sandbox, Key, is_started_type, is_ended_type,
}
use devops_lab.Core.State.{Core, mark_processed}

pub record Breaker : Type 0 where
  pub circuit_open_until : ℕ
  pub consecutive_failures : ℕ
  pub backoff_ms : ℕ

abbrev pub batch_size : ℕ
batch_size = 10

abbrev pub max_backoff_ms : ℕ
max_backoff_ms = 60000

-- A broker's call that is raced against five seconds: it returns, it throws with nothing sent, or
-- the time passes although the message is sent.
pub data Publish : Type 0 where
  acked lost late : Publish

-- What one event meets: the two brokers, the update to `processed`, and in the `catch` the update of
-- the retry counter and the clock.
pub record Attempt : Type 0 where
  pub kafka : Publish
  pub rabbit : Publish
  pub mark_ok : Bool
  pub retry_ok : Bool
  pub failed_at : ℕ

abbrev pub is_acked : Publish → Bool
is_acked acked = true
is_acked _ = false

abbrev pub is_sent : Publish → Bool
is_sent lost = false
is_sent _ = true

-- `payload["requiredProvider"] || "docker"`
abbrev pub provider_of : Message → String
provider_of (session_started p) =
    if p.required_provider == "" then "docker" else p.required_provider
provider_of (session_ended id reason) = "docker"
provider_of (other n) = "docker"

abbrev pub queue_of : OutboxEvent → Queue
queue_of e =
    if is_started_type e.event_type
    then provision_sandbox (provider_of e.payload)
    else terminate_sandbox

abbrev pub same_id : OutboxEvent → OutboxEvent → Bool
same_id e r = r.id == e.id

-- `data: { retryCount: nextRetry, failed: isFailed }`, from the row as it was read.
abbrev pub record_failure : OutboxEvent → OutboxEvent → OutboxEvent
record_failure e r = record r {
  retry_count = e.retry_count + 1;
  failed = leb 5 (e.retry_count + 1);
}

abbrev pub is_pending : OutboxEvent → Bool
is_pending e = not e.processed && not e.failed

unfoldable pub reset : Breaker → Breaker
reset b = record b { consecutive_failures = 0; backoff_ms = 5000 }

-- The failure of one event: counted, and the circuit opened at the third in a row.
unfoldable pub trip : ℕ → Breaker → Breaker
trip failed_at b =
    let failures = b.consecutive_failures + 1 in
    if leb 3 failures
    then (record {
      circuit_open_until = failed_at + b.backoff_ms;
      consecutive_failures = failures;
      backoff_ms = min (b.backoff_ms * 2) max_backoff_ms;
    })
    else record b { consecutive_failures = failures }

module _ (P : Prisma) (R : Redis Key ℕ) where
  -- The two publications of an event of a session, Kafka first; an event of any other type is
  -- published nowhere. The test is whether nothing threw.
  unfoldable pub send : Attempt → OutboxEvent → Core P R → Core P R × Bool
  send a e s =
      let emitted = record s { kafka = s.kafka ++ e.payload ∷ [] } in
      let published = record emitted { rabbit = s.rabbit ++ (queue_of e, e.payload) ∷ [] } in
      if is_started_type e.event_type || is_ended_type e.event_type
      then (if is_acked a.kafka
          then (if is_sent a.rabbit then published else emitted, is_acked a.rabbit)
          else (if is_sent a.kafka then emitted else s, false))
      else (s, true)

  -- One turn of the loop; the last part says whether the loop goes on. An update in the `catch` that
  -- throws ends the cycle.
  unfoldable pub deliver_one :
      Attempt → OutboxEvent → Core P R → Breaker → Core P R × Breaker × Bool
  unfolding send reset trip
  deliver_one a e s b =
      let (s', returned) = send a e s in
      let done = record s' { outbox = P.update_many (same_id e) mark_processed s'.outbox } in
      let retried = record s' { outbox = P.update_many (same_id e) (record_failure e) s'.outbox } in
      if returned && a.mark_ok
      then (done, reset b, true)
      else (if a.retry_ok
          then (retried, trip a.failed_at b, not (leb 3 (b.consecutive_failures + 1)))
          else (s', record b { consecutive_failures = b.consecutive_failures + 1 }, false))

  unfoldable pub deliver_all :
      (OutboxEvent → Attempt) → List OutboxEvent → Core P R → Breaker → Core P R × Breaker
  unfolding deliver_one
  deliver_all a [] s b = (s, b)
  deliver_all a (e ∷ es) s b =
      let (s', b', go_on) = deliver_one (a e) e s b in
      let rest = deliver_all a es s' b' in if go_on then rest else (s', b')

  -- One cycle, at a time; `ready` is false if the Kafka producer is not initialised.
  unfoldable pub poll : (OutboxEvent → Attempt) → ℕ → Bool → Core P R → Breaker → Core P R × Breaker
  unfolding deliver_all
  poll a now ready s b =
      if ltb now b.circuit_open_until
      then (s, b)
      else (if ready
          then deliver_all a (take batch_size (P.find_many is_pending s.outbox)) s b
          else (s, b))
