-- ===== src/Tests/ProgressTests.antt =====
-- The streaks, the badges and the consumers at concrete states.
use devops_lab.Prelude.{◌≡◌, refl, Bool, true, false, none, some, String, [], ◌∷◌, arith}
use devops_lab.Services.{lists}
use devops_lab.Core.Rows.{active}
use devops_lab.Streak.{StreakState}
use devops_lab.Streak.History.{Inv, after, after-Inv}
use devops_lab.Progress.State.{Progress, Badge}
use devops_lab.Progress.Badges.{evaluate_milestones}
use devops_lab.Progress.Badges.Laws.{IsSingle}
use devops_lab.Progress.Badges.Milestones.{evaluate_milestones-IsSingle}
use devops_lab.Progress.Consumers.{Outage, Validated, on_solved}
use devops_lab.Progress.Consumers.Redelivery.{on_solved-redelivery}

-- Noon of the second day, and the evening of the first.
after-Inv_example : Inv 129600000 (after (129600000 ∷ 72000000 ∷ [])) (129600000 ∷ 72000000 ∷ [])
after-Inv_example = after-Inv 129600000 (72000000 ∷ []) (omega arith, tt)

abbrev weekly : StreakState
weekly = record { current_streak = 7; longest_streak = 9; last_activity_date = some 72000000 }

abbrev streak_badge : Badge
streak_badge = record { id = 31; slug = "streak-3"; roadmap_id = none }

abbrev progress : Progress lists
progress = record {
  users =
      record {
        id = "ada";
        org_id = none;
        xp = 10;
        current_streak = 2;
        longest_streak = 2;
        last_activity_date = some 72000000;
      }
      ∷ [];
  challenges = [];
  sessions =
      record {
        id = 6;
        user_id = "ada";
        challenge_id = 2;
        status = active;
        started_at = 5;
        ended_at = none;
      }
      ∷ [];
  nodes = [];
  completions = [];
  check_results = [];
  submissions = [];
  badges = streak_badge ∷ [];
  user_badges = [];
}

abbrev calm : String → Bool
calm slug = false

progress-IsSingle : IsSingle lists progress
progress-IsSingle u b = omega arith

evaluate_milestones-IsSingle_example :
    IsSingle lists (evaluate_milestones lists calm 900 "ada" 4 none progress).0
evaluate_milestones-IsSingle_example =
    evaluate_milestones-IsSingle lists calm 900 "ada" 4 none progress progress-IsSingle

abbrev fine : Outage
fine = record {
  node = false;
  completion = false;
  check = λ i. false;
  user = false;
  session = false;
  submission = false;
  badge = calm;
}

abbrev solve : Validated
solve = record {
  submission_id = 6;
  challenge_id = 2;
  user_id = "ada";
  checks = record { check_id = "port"; passed = true; message = "open" } ∷ [];
}

on_solved-redelivery_example :
    (on_solved lists fine 950 solve (on_solved lists fine 900 solve progress)).users
    ≡ (on_solved lists fine 900 solve progress).users
on_solved-redelivery_example = on_solved-redelivery lists fine fine 900 950 solve progress refl refl
