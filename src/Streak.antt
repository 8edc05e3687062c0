-- ===== src/Streak.antt =====
-- services/core/src/utils/streak.ts: the activity streak of a user. A `Date` is its number of
-- milliseconds since the epoch; the counts of the database are natural numbers, so `x || 0` is x.
pub mod Days
pub mod History
use devops_lab.Prelude.{
  ℕ, zero, suc, ◌+◌, ◌-◌, ◌*◌, ◌/◌, max, Bool, true, false, Option, none, some, ltb, if◌then◌else◌,
}
use devops_lab.Prelude.Int.{ℤ, pos, negsuc, sub_ℕ, round_div}

pub record StreakState : Type 0 where
  pub current_streak : ℕ
  pub longest_streak : ℕ
  pub last_activity_date : Option ℕ

pub record StreakUpdateResult : Type 0 where
  pub current_streak : ℕ
  pub longest_streak : ℕ
  pub last_activity_date : ℕ
  pub incremented : Bool

abbrev pub ms_per_day : ℕ
ms_per_day = 24 * 60 * 60 * 1000

-- `Date.UTC(getUTCFullYear, getUTCMonth, getUTCDate)`: the UTC midnight of the day of a date.
abbrev pub utc_midnight : ℕ → ℕ
utc_midnight t = t / ms_per_day * ms_per_day

unfoldable pub day_diff : ℕ → ℕ → ℤ
day_diff activity last = round_div (sub_ℕ (utc_midnight activity) (utc_midnight last)) ms_per_day

-- The cases on `dayDiff`, with `last` the previous date.
abbrev pub apply_day_diff : ℤ → StreakState → ℕ → ℕ → StreakUpdateResult
apply_day_diff (pos zero) s last activity =
    let kept : ℕ = if ltb 0 s.current_streak then s.current_streak else 1 in
    record {
      current_streak = kept;
      longest_streak = max s.longest_streak kept;
      last_activity_date = activity;
      incremented = false;
    }
apply_day_diff (pos (suc zero)) s last activity =
    let next : ℕ = (if ltb 0 s.current_streak then s.current_streak else 0) + 1 in
    record {
      current_streak = next;
      longest_streak = max s.longest_streak next;
      last_activity_date = activity;
      incremented = true;
    }
apply_day_diff (pos (suc (suc n))) s last activity = record {
  current_streak = 1;
  longest_streak = max s.longest_streak 1;
  last_activity_date = activity;
  incremented = true;
}
apply_day_diff (negsuc n) s last activity =
    let kept : ℕ = if ltb 0 s.current_streak then s.current_streak else 1 in
    record {
      current_streak = kept;
      longest_streak = max s.longest_streak kept;
      last_activity_date = last;
      incremented = false;
    }

calculate_from : Option ℕ → StreakState → ℕ → StreakUpdateResult
calculate_from none s activity = record {
  current_streak = 1;
  longest_streak = max s.longest_streak 1;
  last_activity_date = activity;
  incremented = true;
}
calculate_from (some last) s activity = apply_day_diff (day_diff activity last) s last activity

unfoldable pub calculate_streak : StreakState → ℕ → StreakUpdateResult
unfolding calculate_from
calculate_streak s activity = calculate_from s.last_activity_date s activity
