-- ===== src/Tests/CoreTests.antt =====
-- services/core/src/modules/challenge/challenge.routes.ts and the outbox poller at concrete states.
use devops_lab.Prelude.{ℕ, ◌≡◌, ◌≤◌, refl, true, false, none, some, [], ◌∷◌, arith, count}
use devops_lab.Services.{Redis, lists, keyed, find}
use devops_lab.Core.Rows.{
  pro, OutboxEvent, session_ended, ended_terminated, terminate_sandbox, Key, Key-discrete, active,
  same_message_self,
}
use devops_lab.Core.State.{Core}
use devops_lab.Core.Delivered.{IsDelivered}
use devops_lab.Core.Probe.{Probe, status_ok}
use devops_lab.Core.Start.{tier_of, StartRequest, created, start_challenge, active_of}
use devops_lab.Core.Start.Limits.{start_challenge-Outcome}
use devops_lab.Core.Start.Branches.{start_challenge-IsDelivered}
use devops_lab.Core.Sessions.{EndRequest, delete_session, delete_active}
use devops_lab.Core.Sessions.Ending.{delete_active-ends}
use devops_lab.Core.Poller.{Breaker, Attempt, acked, late, poll, is_pending}
use devops_lab.Core.Poller.Keyed.{IsKeyed}
use devops_lab.Core.Poller.Drain.{Cycle, cycles, cycles-backlog}
use devops_lab.Core.Poller.Guarantee.{poll-IsDelivered}
use devops_lab.Core.Poller.Retries.{poll-AllCounted, AllCounted}
use devops_lab.Core.Poller.Backoff.{IsSteady}

abbrev pub redis : Redis Key ℕ
redis = keyed Key-discrete

abbrev ended_event : OutboxEvent
ended_event = record {
  id = 1;
  event_type = "SessionEndedEvent";
  payload = session_ended 4 ended_terminated;
  created_at = 10;
  processed = true;
  retry_count = 0;
  failed = false;
}

abbrev unsent_event : OutboxEvent
unsent_event = record {
  id = 2;
  event_type = "SessionEndedEvent";
  payload = session_ended 5 ended_terminated;
  created_at = 20;
  processed = false;
  retry_count = 1;
  failed = false;
}

-- One member of a PRO organisation, with one session, a past event that was sent, and one that was not.
abbrev pub lab : Core lists redis
lab = record {
  users =
      record {
        id = "ada";
        org_id = some 1;
        xp = 0;
        current_streak = 0;
        longest_streak = 0;
        last_activity_date = none;
      }
      ∷ [];
  orgs = record { id = 1; plan_tier = pro } ∷ [];
  challenges =
      record {
        id = 3;
        xp = 50;
        docker_image = "nginx";
        required_provider = "";
        contributed_by_org_id = none;
        guest_trial_eligible = true;
        path_id = none;
      }
      ∷ [];
  sessions =
      record {
        id = 6;
        user_id = "ada";
        challenge_id = 2;
        status = active;
        started_at = 5;
        ended_at = none;
      }
      ∷ [];
  outbox = ended_event ∷ unsent_event ∷ [];
  kv = [];
  kafka = session_ended 4 ended_terminated ∷ [];
  rabbit = (terminate_sandbox, session_ended 4 ended_terminated) ∷ [];
}

abbrev closed : Probe
closed = record { circuit_open_until = 0; consecutive_failures = 0 }

abbrev start : StartRequest
start = record {
  user_id = "ada";
  challenge_id = 3;
  now = 100;
  later = 200;
  lock_read_at = 150;
  response = status_ok true;
  fresh_session = 7;
  fresh_event = 8;
  session_ok = true;
  event_ok = true;
  delivery = record { kafka_ok = true; rabbit_ok = true; mark_ok = true };
  session_ttl_mins = 30;
}

lab-created : (start_challenge lists redis start lab closed).2 ≡ created 7
unfolding start_challenge find
lab-created = refl

pub lab-IsDelivered : IsDelivered lists redis lab
lab-IsDelivered = (ground (arith, same_message_self (session_ended 4 ended_terminated)), (refl, tt))

start_challenge-Outcome_example :
    count (active_of "ada") (start_challenge lists redis start lab closed).0.sessions ≤ 3
unfolding find tier_of
start_challenge-Outcome_example =
    ((start_challenge-Outcome lists redis start lab closed).0 7 lab-created).3.within

start_challenge-IsDelivered_example :
    IsDelivered lists redis (start_challenge lists redis start lab closed).0
start_challenge-IsDelivered_example =
    start_challenge-IsDelivered lists redis start lab closed lab-IsDelivered

abbrev attempts : OutboxEvent → Attempt
attempts e = record {
  kafka = acked;
  rabbit = late;
  mark_ok = true;
  retry_ok = true;
  failed_at = 600;
}

abbrev breaker : Breaker
breaker = record { circuit_open_until = 0; consecutive_failures = 2; backoff_ms = 5000 }

breaker-IsSteady : IsSteady breaker
breaker-IsSteady = record { at_least = omega arith; at_most = omega arith }

lab-IsKeyed : IsKeyed lab.outbox lab.outbox
lab-IsKeyed = (((λ h. (refl, refl)), ((λ h. cc), tt)), (((λ h. cc), ((λ h. (refl, refl)), tt)), tt))

lab-AllCounted : AllCounted lab.outbox
lab-AllCounted = (
  record { at_most = omega arith; poison = refl },
  (record { at_most = omega arith; poison = refl }, tt),
)

poll-IsDelivered_example :
    IsDelivered lists redis (poll lists redis attempts 500 true lab breaker).0
poll-IsDelivered_example =
    poll-IsDelivered lists redis attempts 500 true lab breaker lab-IsKeyed lab-IsDelivered

poll-AllCounted_example : AllCounted (poll lists redis attempts 500 true lab breaker).0.outbox
poll-AllCounted_example = poll-AllCounted lists redis attempts 500 true lab breaker lab-AllCounted

abbrev invitation : OutboxEvent
invitation = record unsent_event { event_type = "org.invite.sent" }

abbrev ending : EndRequest
ending = record {
  now = 900;
  fresh_event = 9;
  session_ok = true;
  event_ok = true;
  delivery = record { kafka_ok = true; rabbit_ok = false; mark_ok = true };
}

lab-ended : (delete_session lists redis ending "ada" 6 lab).1 ≡ true
unfolding delete_session
lab-ended = refl

lab-all_ended : (delete_active lists redis (λ id. ending) "ada" lab).1 ≡ true
unfolding delete_active
lab-all_ended = refl

delete_active-ends_example :
    count (active_of "ada") (delete_active lists redis (λ id. ending) "ada" lab).0.sessions ≡ 0
delete_active-ends_example =
    (delete_active-ends lists redis (λ id. ending) "ada" lab (λ id. ground arith)).0 lab-all_ended

abbrev quiet_cycle : Cycle
quiet_cycle = record {
  attempts =
      λ e. record { kafka = acked; rabbit = acked; mark_ok = true; retry_ok = true; failed_at = 0 };
  now = 600;
  ready = true;
}

cycles-backlog_example :
    lists.find_many is_pending (cycles lists redis (quiet_cycle ∷ []) lab breaker).0.outbox ≡ []
cycles-backlog_example =
    cycles-backlog lists redis (quiet_cycle ∷ []) lab breaker
      ((ground arith, refl, λ e. (refl, refl, refl)), tt) (ground arith)
