-- ===== src/Messaging/Kafka/Healing.antt =====
-- packages/messaging/kafka.ts: the producer never stops trying.
use devops_lab.Prelude.{◌≡◌, true, ◌||◌, List, [], ◌∷◌, arith}
use devops_lab.Messaging.Kafka.{
  Producer, ProducerEvent, init_called, connect_ended, retry_due, init_producer, producer_step,
  producer_run,
}

-- It is connected, or connecting, or it will try again.
abbrev pub IsHealing : Producer → Type 0
IsHealing p = (p.ready || (p.connecting || p.retry_scheduled)) ≡ true

producer_step-IsHealing :
    (e : ProducerEvent) (p : Producer) → IsHealing p → IsHealing (producer_step e p)
unfolding producer_step
producer_step-IsHealing init_called p h = ground (arith, h)
producer_step-IsHealing (connect_ended ok) p h = ground (arith, h)
producer_step-IsHealing retry_due p h = ground (arith, h)

producer_run-keeps :
    (es : List ProducerEvent) (p : Producer) → IsHealing p → IsHealing (producer_run es p)
unfolding producer_run
producer_run-keeps [] p h = h
producer_run-keeps (e ∷ es) p h =
    producer_run-keeps es (producer_step e p) (producer_step-IsHealing e p h)

-- After a first call the producer is connected, connecting, or waits for a retry, whatever follows.
pub producer_run-IsHealing :
    (es : List ProducerEvent) (p : Producer)
    → IsHealing (producer_run es (producer_step init_called p))
unfolding producer_step
producer_run-IsHealing es p = producer_run-keeps es (init_producer p) (ground arith)
