-- ===== src/Auth/Outbox.antt =====
-- services/auth/src/plugins/outbox.ts: one cycle of the publication of the auth service's events,
-- with the circuit breaker that it has in common with the core service's poller. `by_age` is the
-- database's order by the time of creation, and a payload is what the event's class is made of.
pub mod Order
use devops_lab.Prelude.{
  ℕ, ◌+◌, ◌≡◌, Bool, true, false, ◌&&◌, ◌||◌, not, String, string_eq, nat_eq, ◌==◌, List, [], ◌∷◌,
  ◌++◌, leb, ltb, take, if◌then◌else◌,
}
use devops_lab.Services.{Prisma}
use devops_lab.Core.Poller.{Breaker, Attempt, is_acked, is_sent, batch_size, reset, trip}

pub record AuthOutboxEvent (Payload : Type 0) : Type 0 where
  pub id : ℕ
  pub event_type : String
  pub payload : Payload
  pub processed : Bool
  pub retry_count : ℕ
  pub failed : Bool

-- The table, and what Kafka has been sent.
pub record AuthOutbox (P : Prisma) (Payload : Type 0) : Type 0 where
  pub table : P.Table (AuthOutboxEvent Payload)
  pub kafka : List (String × Payload)

-- The types that the switch knows; an event of another type is skipped and stays as it is.
abbrev pub is_known_type : String → Bool
is_known_type t =
    t == "UserRegisteredEvent"
    || (t == "EmailVerificationRequestedEvent"
        || (t == "PasswordResetRequestedEvent" || t == "UserDeletedEvent"))

module _ {Payload : Type 0} where
  abbrev pub is_known : AuthOutboxEvent Payload → Bool
  is_known e = is_known_type e.event_type

  abbrev pub is_unsent : AuthOutboxEvent Payload → Bool
  is_unsent e = not e.processed && not e.failed

  abbrev pub same_event : AuthOutboxEvent Payload → AuthOutboxEvent Payload → Bool
  same_event e r = r.id == e.id

  abbrev pub count_retry :
      AuthOutboxEvent Payload → AuthOutboxEvent Payload → AuthOutboxEvent Payload
  count_retry e r = record r { retry_count = e.retry_count + 1; failed = leb 5 (e.retry_count + 1) }

  abbrev pub sent_of : AuthOutboxEvent Payload → String × Payload
  sent_of e = (e.event_type, e.payload)

module _ (P : Prisma) {Payload : Type 0} where
  -- `kafka.emit`, raced against five seconds.
  abbrev pub emit_event :
      Attempt → AuthOutboxEvent Payload → AuthOutbox P Payload → AuthOutbox P Payload
  emit_event a e s = if is_sent a.kafka then record s { kafka = s.kafka ++ sent_of e ∷ [] } else s

  -- The loop over the events: the first failure is counted and ends it.
  unfoldable pub process_all :
      (AuthOutboxEvent Payload → Attempt)
      → List (AuthOutboxEvent Payload)
      → AuthOutbox P Payload
      → Breaker
      → AuthOutbox P Payload × Breaker
  unfolding reset trip
  process_all a [] s b = (s, b)
  process_all a (e ∷ es) s b =
      let s' = emit_event (a e) e s in
      let marked = record s' {
        table = P.update_many (same_event e) (λ r. record r { processed = true }) s'.table;
      } in
      let retried = record s' { table = P.update_many (same_event e) (count_retry e) s'.table } in
      let skipped = process_all a es s b in
      let rest = process_all a es marked (reset b) in
      if is_known e
      then (if is_acked (a e).kafka && (a e).mark_ok
          then rest
          else (if (a e).retry_ok
              then (retried, trip (a e).failed_at b)
              else (s', record b { consecutive_failures = b.consecutive_failures + 1 })))
      else skipped

  -- The events of a cycle: ten at most, the oldest first.
  abbrev pub batch_of :
      (List (AuthOutboxEvent Payload) → List (AuthOutboxEvent Payload))
      → AuthOutbox P Payload
      → List (AuthOutboxEvent Payload)
  batch_of by_age s = take batch_size (by_age (P.find_many is_unsent s.table))

  -- `processOutbox()`, one at a time; `ready` is `isProducerReady`.
  unfoldable pub process_outbox :
      (List (AuthOutboxEvent Payload) → List (AuthOutboxEvent Payload))
      → (AuthOutboxEvent Payload → Attempt)
      → ℕ
      → Bool
      → AuthOutbox P Payload
      → Breaker
      → AuthOutbox P Payload × Breaker
  unfolding process_all
  process_outbox by_age a now ready s b =
      if ltb now b.circuit_open_until
      then (s, b)
      else (if ready then process_all a (batch_of by_age s) s b else (s, b))
