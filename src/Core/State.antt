-- ===== src/Core/State.antt =====
-- The state that the core service reads and writes, and the writes to the outbox and the brokers
-- that several handlers share.
use devops_lab.Prelude.{
  ℕ, Bool, true, false, ◌&&◌, String, List, [], ◌∷◌, ◌++◌, ◌==◌, nat_eq, string_eq, not,
  if◌then◌else◌,
}
use devops_lab.Services.{Prisma, Redis}
use devops_lab.Core.Rows.{
  LabSession, User, Org, Challenge, OutboxEvent, Message, Queue, Key, same_message,
}

-- The tables, Redis (whose values are identifiers), and what the brokers have been sent.
pub record Core (P : Prisma) (R : Redis Key ℕ) : Type 0 where
  pub users : P.Table User
  pub orgs : P.Table Org
  pub challenges : P.Table Challenge
  pub sessions : P.Table LabSession
  pub outbox : P.Table OutboxEvent
  pub kv : R.Kv
  pub kafka : List Message
  pub rabbit : List (Queue × Message)

-- Whether each call of a broker, and the update that follows, returns or throws.
pub record Delivery : Type 0 where
  pub kafka_ok : Bool
  pub rabbit_ok : Bool
  pub mark_ok : Bool

unfoldable pub outbox_row : ℕ → String → Message → ℕ → OutboxEvent
outbox_row id event_type payload now = record {
  id = id;
  event_type = event_type;
  payload = payload;
  created_at = now;
  processed = false;
  retry_count = 0;
  failed = false;
}

-- The `where` of the update that marks an event which was published at once.
abbrev pub undelivered : String → Message → OutboxEvent → Bool
undelivered event_type payload e =
    e.event_type == event_type && (same_message e.payload payload && not e.processed)

abbrev pub mark_processed : OutboxEvent → OutboxEvent
mark_processed e = record e { processed = true }

module _ (P : Prisma) (R : Redis Key ℕ) where
  -- Emit to Kafka, publish to RabbitMQ, mark the outbox event; the first call that throws ends it,
  -- and the handler goes on.
  unfoldable pub publish_inline : Delivery → String → Queue → Message → Core P R → Core P R
  publish_inline d event_type queue payload s =
      let emitted = record s { kafka = s.kafka ++ payload ∷ [] } in
      let published = record emitted { rabbit = s.rabbit ++ (queue, payload) ∷ [] } in
      let marked = record published {
        outbox = P.update_many (undelivered event_type payload) mark_processed s.outbox;
      } in
      if d.kafka_ok
      then (if d.rabbit_ok then (if d.mark_ok then marked else published) else emitted)
      else s
