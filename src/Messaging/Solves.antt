-- ===== src/Messaging/Solves.antt =====
-- services/core/src/modules/progress/consumers.ts over packages/messaging/kafka.ts: the handlers
-- catch every error of their own.
use devops_lab.Prelude.{ℕ, ◌≡◌, ◌+◌, refl, Bool, true, Option, some, String}
use devops_lab.Services.{Prisma}
use devops_lab.Progress.State.{Progress}
use devops_lab.Progress.Consumers.{Validated, Outage, on_solved}
use devops_lab.Messaging.Kafka.{Consumed, each_message, attempts_from}

module _ (P : Prisma) where
  -- The handler of CHALLENGE_SOLVED under the outages and the clock of each attempt.
  abbrev pub solved_handler :
      (ℕ → Outage) → (ℕ → ℕ) → ℕ → Validated → Progress P → Progress P × Bool
  solved_handler o now attempt ev s = (on_solved P (o attempt) (now attempt) ev s, true)

  -- A message is committed after one run of the handler, whatever the outage: no retry and no dead
  -- letter.
  pub each_message-solved :
      (parse : String → Option Validated) (o : ℕ → Outage) (now : ℕ → ℕ) (dlq_ok : Bool)
      (raw : String) (ev : Validated) (s : Consumed (Progress P))
      → parse raw ≡ some ev
      → each_message parse (solved_handler o now) dlq_ok (some raw) s
        ≡ (record s { app = on_solved P (o 1) (now 1) ev s.app; handled = s.handled + 1 }, true)
  unfolding each_message attempts_from
  each_message-solved parse o now dlq_ok raw ev s e = rw e refl
