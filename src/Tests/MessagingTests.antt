-- ===== src/Tests/MessagingTests.antt =====
-- packages/messaging at concrete states.
use devops_lab.Prelude.{
  ℕ, ◌≡◌, refl, Bool, true, false, Option, none, some, String, string_eq, ◌==◌, [], ◌∷◌,
  if◌then◌else◌, ◌+◌, leb,
}
use devops_lab.Messaging.Rabbit.{
  Rabbit, publish_called, retry_due, connection_lost, connected, rabbit_run, publish_rabbit,
}
use devops_lab.Messaging.Rabbit.Recovery.{
  IsHalfOpen, failing, rabbit_run-IsHalfOpen, rabbit_run-deaf,
}
use devops_lab.Messaging.Kafka.{Consumed, each_message}
use devops_lab.Messaging.Kafka.Attempts.{IsSettled, each_message-IsSettled}

-- A channel that closed on a live connection.
abbrev half_open : Rabbit
half_open = record {
  connection = true;
  channel = false;
  reconnecting = some 2;
  registrations = "provision" ∷ [];
  consuming = [];
  published = "terminate" ∷ [];
}

rabbit_run-IsHalfOpen_example :
    let es = retry_due connected (λ q. true) ∷ publish_called "terminate" connected true ∷ [] in
    IsHalfOpen (rabbit_run es half_open) × ((rabbit_run es half_open).published ≡ "terminate" ∷ [])
rabbit_run-IsHalfOpen_example =
    rabbit_run-IsHalfOpen
      (retry_due connected (λ q. true) ∷ publish_called "terminate" connected true ∷ []) half_open
      (refl, (refl, tt)) (refl, refl, refl)

abbrev live : Rabbit
live = record {
  connection = true;
  channel = true;
  reconnecting = none;
  registrations = "provision" ∷ "terminate" ∷ [];
  consuming = "provision" ∷ "terminate" ∷ [];
  published = [];
}

rabbit_run-deaf_example :
    let gone = rabbit_run (connection_lost ∷ failing 11) live in
    let (s', sent) = publish_rabbit "terminate" connected true gone in
    (gone.reconnecting ≡ none)
    × (sent ≡ true)
    × (s'.channel ≡ true)
    × (s'.consuming ≡ [])
    × (s'.reconnecting ≡ none)
    × (s'.registrations ≡ "provision" ∷ "terminate" ∷ [])
rabbit_run-deaf_example = rabbit_run-deaf "terminate" live refl

-- A handler that counts its calls and fails before the third attempt.
abbrev parse_digit : String → Option ℕ
parse_digit raw = if raw == "7" then some 7 else none

abbrev third_time : ℕ → ℕ → ℕ → ℕ × Bool
third_time attempt e n = (n + e, leb 3 attempt)

abbrev quiet : Consumed ℕ
quiet = record { app = 0; dead = []; handled = 0 }

each_message-IsSettled_example :
    IsSettled parse_digit third_time true "7" quiet
      (each_message parse_digit third_time true (some "7") quiet)
each_message-IsSettled_example = each_message-IsSettled parse_digit third_time true "7" quiet
