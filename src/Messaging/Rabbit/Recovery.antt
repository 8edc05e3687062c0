-- ===== src/Messaging/Rabbit/Recovery.antt =====
-- packages/messaging/rabbitmq.ts: what a reconnection brings back, and what it does not.
use devops_lab.Prelude.{
  ℕ, suc, zero, ◌≡◌, refl, ap, ◌∙◌, Bool, true, false, Option, none, some, String, List, [], ◌∷◌,
  arith, All,
}
use devops_lab.Messaging.Rabbit.{
  Connect, no_broker, connected, Rabbit, RabbitEvent, retry_due, connection_lost, channel_lost,
  consume_called, publish_called, init_rabbit, retry_from, publish_rabbit, rabbit_step, rabbit_run,
  or_first,
}

-- A connection without a channel: nothing is consumed.
abbrev pub IsHalfOpen : Rabbit → Type 0
IsHalfOpen s = (s.connection ≡ true) × (s.channel ≡ false) × (s.consuming ≡ [])

abbrev pub is_connection_lost : RabbitEvent → Bool
is_connection_lost connection_lost = true
is_connection_lost _ = false

retry_from-IsHalfOpen :
    (o : Option ℕ) (answer : Connect) (answers : String → Bool) (s : Rabbit)
    → IsHalfOpen s
    → IsHalfOpen (retry_from o answer answers s)
      × ((retry_from o answer answers s).published ≡ s.published)
unfolding retry_from init_rabbit
retry_from-IsHalfOpen none answer answers s h = (h, refl)
retry_from-IsHalfOpen (some n) answer answers s h = ground (arith, h)

rabbit_step-IsHalfOpen :
    (e : RabbitEvent) (s : Rabbit)
    → is_connection_lost e ≡ false
    → IsHalfOpen s
    → IsHalfOpen (rabbit_step e s) × ((rabbit_step e s).published ≡ s.published)
unfolding rabbit_step retry_from publish_rabbit init_rabbit
rabbit_step-IsHalfOpen (retry_due answer answers) s ne h =
    retry_from-IsHalfOpen s.reconnecting answer answers s h
rabbit_step-IsHalfOpen connection_lost s ne h = cc
rabbit_step-IsHalfOpen channel_lost s ne h = ((h.0, refl, refl), refl)
rabbit_step-IsHalfOpen (consume_called q answers) s ne h = ground (arith, h)
rabbit_step-IsHalfOpen (publish_called q answer answers) s ne h = ground (arith, h)

-- Once there is a connection without a channel and nothing is consumed, as after the channel alone
-- has closed, then whatever happens except the loss of the connection, attempts to reconnect that
-- would succeed included, there is no channel, nothing is consumed and nothing more is published.
pub rabbit_run-IsHalfOpen :
    (es : List RabbitEvent) (s : Rabbit)
    → All (λ e. is_connection_lost e ≡ false) es
    → IsHalfOpen s
    → IsHalfOpen (rabbit_run es s) × ((rabbit_run es s).published ≡ s.published)
unfolding rabbit_run
rabbit_run-IsHalfOpen [] s ne h = (h, refl)
rabbit_run-IsHalfOpen (e ∷ es) s ne h =
    let one = rabbit_step-IsHalfOpen e s ne.0 h in
    let rest = rabbit_run-IsHalfOpen es (rabbit_step e s) ne.1 one.0 in (rest.0, rest.1 ∙ one.1)

abbrev pub no_answer : String → Bool
no_answer q = false

-- So many attempts that find no broker.
abbrev pub failing : ℕ → List RabbitEvent
failing zero = []
failing (suc n) = retry_due no_broker no_answer ∷ failing n

abbrev pub down_at : Option ℕ → Rabbit → Rabbit
down_at o s = record s { connection = false; channel = false; consuming = []; reconnecting = o }

-- If no reconnection is under way when the connection is lost and eleven timers find no broker,
-- the loop has ended; a later publication that finds the broker is sent and opens a channel, but
-- on that channel nothing is consumed and no reconnection is awaited, although the registrations
-- are kept.
pub rabbit_run-deaf :
    (q : String) (s : Rabbit)
    → s.reconnecting ≡ none
    → let gone = rabbit_run (connection_lost ∷ failing 11) s in
      let (s', sent) = publish_rabbit q connected true gone in
      (gone.reconnecting ≡ none)
      × (sent ≡ true)
      × (s'.channel ≡ true)
      × (s'.consuming ≡ [])
      × (s'.reconnecting ≡ none)
      × (s'.registrations ≡ s.registrations)
unfolding rabbit_run rabbit_step retry_from init_rabbit publish_rabbit
rabbit_run-deaf q s idle =
    let start = ap (λ o. rabbit_run (failing 11) (down_at (or_first o) s)) idle in
    rw (start, publish_rabbit) (refl, refl, refl, refl, refl, refl)
