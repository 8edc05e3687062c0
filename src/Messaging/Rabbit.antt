-- ===== src/Messaging/Rabbit.antt =====
-- packages/messaging/rabbitmq.ts: the connection, its loop of reconnections, and the consumers, as a
-- machine whose events are the callbacks and the calls, in any order.
pub mod Recovery
use devops_lab.Prelude.{
  ℕ, ◌+◌, ◌-◌, ◌*◌, ◌^◌, min, suc, Bool, true, false, ◌&&◌, ◌||◌, not, Option, none, some, String,
  List, [], ◌∷◌, ◌++◌, string_eq, ◌==◌, leb, any, where_rows, if◌then◌else◌,
}

-- What the broker answers a connection: nothing, a connection on which the creation of a channel
-- throws, or both.
pub data Connect : Type 0 where
  no_broker no_channel connected : Connect

-- `reconnecting` with the number of the loop's attempt; the queues that the present channel
-- consumes; and what was published.
pub record Rabbit : Type 0 where
  pub connection : Bool
  pub channel : Bool
  pub reconnecting : Option ℕ
  pub registrations : List String
  pub consuming : List String
  pub published : List String

pub data RabbitEvent : Type 0 where
  retry_due : Connect → (String → Bool) → RabbitEvent
  connection_lost channel_lost : RabbitEvent
  consume_called : String → Bool → RabbitEvent
  publish_called : String → Connect → Bool → RabbitEvent

abbrev pub max_attempts : ℕ
max_attempts = 10

abbrev pub base_delay_ms : ℕ
base_delay_ms = 1000

-- The wait after the attempt of this number.
abbrev pub delay_ms : ℕ → ℕ
delay_ms attempt = min (base_delay_ms * 2 ^ (attempt - 1)) 30000

abbrev pub or_first : Option ℕ → Option ℕ
or_first none = some 1
or_first (some n) = some n

-- `reconnectWithBackoff()`: one loop at a time.
abbrev pub begin_reconnect : Rabbit → Rabbit
begin_reconnect s = record s { reconnecting = or_first s.reconnecting }

abbrev pub connect_with : Connect → Rabbit → Rabbit
connect_with no_broker s = begin_reconnect s
connect_with no_channel s = begin_reconnect (record s { connection = true })
connect_with connected s = record s { connection = true; channel = true }

-- `init()`: nothing happens while there is a connection.
unfoldable pub init_rabbit : Connect → Rabbit → Rabbit
init_rabbit answer s = if s.connection then s else connect_with answer s

-- The end of an attempt: `consume()` is called for every registration, of which those queues are
-- consumed for which the channel's calls answer (the others' errors are logged), and the loop ends;
-- or the next attempt is awaited.
abbrev pub after_attempt : ℕ → (String → Bool) → Rabbit → Rabbit
after_attempt n answers s =
    if s.channel
    then record s {
      consuming = s.consuming ++ where_rows answers s.registrations;
      reconnecting = none;
    }
    else record s { reconnecting = some (n + 1) }

-- One turn of the loop, when its wait is over.
unfoldable pub retry_from : Option ℕ → Connect → (String → Bool) → Rabbit → Rabbit
unfolding init_rabbit
retry_from none answer answers s = s
retry_from (some n) answer answers s =
    if leb n max_attempts
    then after_attempt n answers (init_rabbit answer s)
    else record s { reconnecting = none }

abbrev pub on_connection_lost : Rabbit → Rabbit
on_connection_lost s =
    begin_reconnect (record s { connection = false; channel = false; consuming = [] })

abbrev pub on_channel_lost : Rabbit → Rabbit
on_channel_lost s = begin_reconnect (record s { channel = false; consuming = [] })

abbrev pub add_queue : String → List String → List String
add_queue q qs = if any (λ x. x == q) qs then qs else qs ++ q ∷ []

-- `consume()`: the registration stays; `answers` is false if the channel's calls throw.
abbrev pub consume_queue : String → Bool → Rabbit → Rabbit
consume_queue q answers s =
    let registered = record s { registrations = add_queue q s.registrations } in
    if s.channel && answers
    then record registered { consuming = s.consuming ++ q ∷ [] }
    else registered

abbrev pub send_to : String → Bool → Rabbit → Rabbit × Bool
send_to q answers s =
    if s.channel && answers
    then (record s { published = s.published ++ q ∷ [] }, true)
    else (s, false)

-- `publish()`, with its attempt to connect; the test is whether it returns.
unfoldable pub publish_rabbit : String → Connect → Bool → Rabbit → Rabbit × Bool
unfolding init_rabbit
publish_rabbit q answer answers s =
    send_to q answers (if s.channel then s else init_rabbit answer s)

unfoldable pub rabbit_step : RabbitEvent → Rabbit → Rabbit
unfolding retry_from publish_rabbit
rabbit_step (retry_due answer answers) s = retry_from s.reconnecting answer answers s
rabbit_step connection_lost s = on_connection_lost s
rabbit_step channel_lost s = on_channel_lost s
rabbit_step (consume_called q answers) s = consume_queue q answers s
rabbit_step (publish_called q answer answers) s = (publish_rabbit q answer answers s).0

unfoldable pub rabbit_run : List RabbitEvent → Rabbit → Rabbit
unfolding rabbit_step
rabbit_run [] s = s
rabbit_run (e ∷ es) s = rabbit_run es (rabbit_step e s)
