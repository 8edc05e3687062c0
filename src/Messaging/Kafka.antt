-- ===== src/Messaging/Kafka.antt =====
-- packages/messaging/kafka.ts: the producer and its retries, and the attempts of a consumer. Kafka's
-- and JavaScript's parts are parameters: `parse` is JSON.parse, and `handle` the consumer's handler,
-- which ends with a new state and throws or not.
pub mod Attempts
pub mod Healing
use devops_lab.Prelude.{
  ℕ, zero, suc, ◌+◌, ◌*◌, Bool, true, false, ◌&&◌, ◌||◌, not, Option, none, some, String, List, [],
  ◌∷◌, ◌++◌, leb, if◌then◌else◌,
}

-- `producer`, `connectPromise` and `isRetryScheduled`.
pub record Producer : Type 0 where
  pub ready : Bool
  pub connecting : Bool
  pub retry_scheduled : Bool

pub data ProducerEvent : Type 0 where
  init_called : ProducerEvent
  connect_ended : Bool → ProducerEvent
  retry_due : ProducerEvent

-- A call while a connection is made, or after it, starts nothing.
abbrev pub init_producer : Producer → Producer
init_producer p = if p.ready || p.connecting then p else record p { connecting = true }

-- The end of the connection that is made; a failure schedules a retry, if none is.
abbrev pub end_connect : Bool → Producer → Producer
end_connect ok p =
    if p.connecting
    then (if ok
        then record p { ready = true; connecting = false }
        else record p { connecting = false; retry_scheduled = true })
    else p

-- The timer of ten seconds.
abbrev pub fire_retry : Producer → Producer
fire_retry p = if p.retry_scheduled then init_producer (record p { retry_scheduled = false }) else p

unfoldable pub producer_step : ProducerEvent → Producer → Producer
producer_step init_called p = init_producer p
producer_step (connect_ended ok) p = end_connect ok p
producer_step retry_due p = fire_retry p

unfoldable pub producer_run : List ProducerEvent → Producer → Producer
unfolding producer_step
producer_run [] p = p
producer_run (e ∷ es) p = producer_run es (producer_step e p)

abbrev pub max_retries : ℕ
max_retries = 3

-- The wait after a failed attempt; there is none after the last.
abbrev pub wait_ms : ℕ → ℕ
wait_ms attempt = if leb max_retries attempt then 0 else attempt * 1000

-- The state of the handler, the dead letters of the topic, and how often the handler ran.
pub record Consumed (S : Type 0) : Type 0 where
  pub app : S
  pub dead : List String
  pub handled : ℕ

module _ {S E : Type 0} (parse : String → Option E) (handle : ℕ → E → S → S × Bool) where
  -- An attempt: the test is whether nothing threw.
  abbrev pub attempt_event : ℕ → Option E → Consumed S → Consumed S × Bool
  attempt_event attempt none s = (s, false)
  attempt_event attempt (some e) s =
      let r = handle attempt e s.app in (record s { app = r.0; handled = s.handled + 1 }, r.1)

  -- The loop, from an attempt on, with so many attempts left.
  unfoldable pub attempts_from : ℕ → ℕ → String → Consumed S → Consumed S × Bool
  attempts_from zero attempt raw s = (s, false)
  attempts_from (suc left) attempt raw s =
      let r = attempt_event attempt (parse raw) s in
      let rest = attempts_from left (attempt + 1) raw r.0 in if r.1 then r else rest

  -- The dead letter: the test is whether the send returns; if not, the message is not committed.
  abbrev pub send_dead : Bool → String → Consumed S → Consumed S × Bool
  send_dead ok raw s = if ok then (record s { dead = s.dead ++ raw ∷ [] }, true) else (s, false)

  abbrev pub end_message : Bool → String → Consumed S × Bool → Consumed S × Bool
  end_message dlq_ok raw r = if r.1 then r else send_dead dlq_ok raw r.0

  -- `eachMessage`; the test is whether the message is committed.
  unfoldable pub each_message : Bool → Option String → Consumed S → Consumed S × Bool
  unfolding attempts_from
  each_message dlq_ok none s = (s, true)
  each_message dlq_ok (some raw) s = end_message dlq_ok raw (attempts_from max_retries 1 raw s)
