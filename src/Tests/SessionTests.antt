-- ===== src/Tests/SessionTests.antt =====
-- The guest trial and the session reaper at concrete states.
use devops_lab.Prelude.{Bool-cases, ℕ, ◌≡◌, ◌≤◌, refl, true, false, none, some, arith, count}
use devops_lab.Services.{lists, find}
use devops_lab.Core.Rows.{
  LabSession, active, reaper_leader, trial_ip, Key-discrete, string_discrete,
}
use devops_lab.Core.Trial.{TrialRequest, start_trial}
use devops_lab.Core.Trial.Once.{start_trial-once, is_trial_created}
use devops_lab.Core.Probe.{Probe}
use devops_lab.Core.Trial.Limited.{start_trial-Granted}
use devops_lab.Core.Reaper.{Reap, reap, is_expired}
use devops_lab.Core.Reaper.Expiry.{reap-ends}
use devops_lab.Tests.CoreTests.{lab, redis}

abbrev trial : TrialRequest
trial = record {
  challenge_id = 3;
  cookie = some "visitor1";
  fresh_guest = "visitor2";
  client_ip = "10.0.0.1";
  now = 100;
  lock_read_at = 150;
  fresh_session = 7;
  fresh_event = 8;
  session_ok = true;
  event_ok = true;
  delivery = record { kafka_ok = true; rabbit_ok = false; mark_ok = true };
  guest_ttl_mins = 0;
}

abbrev second_trial : TrialRequest
second_trial = record trial { now = 5000; fresh_session = 9; fresh_event = 10 }

trial_is_created : is_trial_created (start_trial lists redis trial lab).1 ≡ true
unfolding start_trial find Key-discrete string_discrete Bool-cases
trial_is_created = refl

start_trial-once_example :
    is_trial_created (start_trial lists redis second_trial (start_trial lists redis trial lab).0).1
    ≡ false
start_trial-once_example =
    (start_trial-once lists redis trial second_trial lab refl (omega arith) (omega arith)
      trial_is_created).1

abbrev reaps : ℕ → Reap
reaps id = record {
  now = 9000000;
  fresh_event = 11;
  session_ok = true;
  event_ok = true;
  delivery = record { kafka_ok = true; rabbit_ok = true; mark_ok = true };
}

abbrev session : LabSession
session = record {
  id = 6;
  user_id = "ada";
  challenge_id = 2;
  status = active;
  started_at = 5;
  ended_at = none;
}

lab-free : redis.get lab.kv 9000000 reaper_leader ≡ none
lab-free = refl

reap-ends_example :
    count (is_expired 9000000 30 10) (reap lists redis reaps 9000000 1 30 10 lab).sessions ≡ 0
reap-ends_example =
    reap-ends lists redis reaps (λ id. refl) 9000000 1 30 10 lab lab-free (omega arith)

start_trial-Granted_example : redis.counter lab.kv 100 (trial_ip "10.0.0.1") ≤ 1
start_trial-Granted_example = (start_trial-Granted lists redis trial lab trial_is_created).within

abbrev shaky : Probe
shaky = record { circuit_open_until = 0; consecutive_failures = 2 }
