-- ===== src/Streak/History.antt =====
-- What the streak counters mean: `after` replays `calculateStreak` over a history of activities,
-- and the current streak is measured against the days of that history.
use devops_lab.Prelude.{
  ℕ, zero, suc, ◌+◌, ◌≤◌, ◌<◌, ◌≡◌, refl, max, Bool, true, false, none, some, List, [], ◌∷◌, arith,
  ◌==◌, nat_eq, string_eq, any, All, inl, inr, ◌⊎◌, Option-cases,
}
use devops_lab.Streak.{StreakState, StreakUpdateResult, calculate_streak}
use devops_lab.Streak.Days.{utc_day, day_diff-eq}

-- The record that is written back to the user's row.
abbrev pub saved : StreakUpdateResult → StreakState
saved r = record {
  current_streak = r.current_streak;
  longest_streak = r.longest_streak;
  last_activity_date = some r.last_activity_date;
}

abbrev pub fresh : StreakState
fresh = record { current_streak = 0; longest_streak = 0; last_activity_date = none }

-- The state after a history of activities, the latest first.
unfoldable pub after : List ℕ → StreakState
after [] = fresh
after (t ∷ ts) = saved (calculate_streak (after ts) t)

-- No activity is older than the one before it.
abbrev pub IsChronological : List ℕ → Type 0
IsChronological [] = Unit
IsChronological (t ∷ []) = Unit
IsChronological (t ∷ u ∷ ts) = (u ≤ t) × IsChronological (u ∷ ts)

-- Some activity of the history lies exactly `ago` days before `day`.
abbrev pub active_on : ℕ → ℕ → List ℕ → Bool
active_on day ago = any (λ t. (utc_day t + ago) == day)

-- The last `n` days up to `day` all have an activity, and the day before them has none.
pub record IsStreak (day n : ℕ) (ts : List ℕ) : Type 0 where
  pub positive : 0 < n
  pub filled : (ago : ℕ) → ago < n → active_on day ago ts ≡ true
  pub ended : active_on day n ts ≡ false

pub record Inv (t : ℕ) (s : StreakState) (ts : List ℕ) : Type 0 where
  pub last : s.last_activity_date ≡ some t
  pub streak : IsStreak (utc_day t) s.current_streak ts
  pub newest : All (λ u. utc_day u ≤ utc_day t) ts

active_on-shift :
    (day ago : ℕ) (ts : List ℕ) → active_on (day + 1) (suc ago) ts ≡ active_on day ago ts
active_on-shift day ago [] = refl
active_on-shift day ago (t ∷ ts) = ground (arith, active_on-shift day ago ts)

active_on-beyond :
    (day day' : ℕ) (ts : List ℕ)
    → All (λ u. utc_day u ≤ day) ts
    → day + 1 < day'
    → active_on day' 1 ts ≡ false
active_on-beyond day day' [] h lt = refl
active_on-beyond day day' (t ∷ ts) h lt = ground (arith, active_on-beyond day day' ts h.1 lt)

All-weaken :
    (day day' : ℕ) (ts : List ℕ)
    → All (λ u. utc_day u ≤ day) ts
    → day ≤ day'
    → All (λ u. utc_day u ≤ day') ts
All-weaken day day' [] h le = tt
All-weaken day day' (t ∷ ts) h le = (omega arith, All-weaken day day' ts h.1 le)

module _ (day n t : ℕ) (ts : List ℕ) (s : IsStreak day n ts) where
  IsStreak-same : utc_day t ≡ day → IsStreak day n (t ∷ ts)
  IsStreak-same e = record {
    positive = s.positive;
    filled = λ ago h. ground (arith, s.filled ago h);
    ended = ground (arith, s.ended, s.positive);
  }

  next_filled :
      utc_day t ≡ day + 1 → (ago : ℕ) → ago < n + 1 → active_on (day + 1) ago (t ∷ ts) ≡ true
  next_filled e zero h = ground arith
  next_filled e (suc ago) h = ground (arith, active_on-shift day ago ts, s.filled ago (omega arith))

  IsStreak-next : utc_day t ≡ day + 1 → IsStreak (day + 1) (n + 1) (t ∷ ts)
  IsStreak-next e = record {
    positive = omega arith;
    filled = next_filled e;
    ended = ground (arith, s.ended, active_on-shift day n ts);
  }

IsStreak-gap :
    (day t : ℕ) (ts : List ℕ)
    → All (λ u. utc_day u ≤ day) ts
    → day + 1 < utc_day t
    → IsStreak (utc_day t) 1 (t ∷ ts)
IsStreak-gap day t ts h lt = record {
  positive = omega arith;
  filled = λ ago p. ground arith;
  ended = ground (arith, active_on-beyond day (utc_day t) ts h lt);
}

-- The four results of the code by the difference of the days, for a positive streak.
module _ (s : StreakState) (t u : ℕ) (last : s.last_activity_date ≡ some u) where
  calculate_streak-same :
      0 < s.current_streak
      → utc_day t ≡ utc_day u
      → (saved (calculate_streak s t)).current_streak ≡ s.current_streak
  unfolding calculate_streak
  calculate_streak-same p e = rw (last, day_diff-eq t u) (ground arith)

  calculate_streak-next :
      0 < s.current_streak
      → utc_day t ≡ utc_day u + 1
      → (saved (calculate_streak s t)).current_streak ≡ s.current_streak + 1
  unfolding calculate_streak
  calculate_streak-next p e = rw (last, day_diff-eq t u, e) (ground arith)

  calculate_streak-gap :
      utc_day u + 1 < utc_day t → (saved (calculate_streak s t)).current_streak ≡ 1
  unfolding calculate_streak
  calculate_streak-gap e = rw (last, day_diff-eq t u) (ground arith)

  calculate_streak-date :
      utc_day u ≤ utc_day t → (saved (calculate_streak s t)).last_activity_date ≡ some t
  unfolding calculate_streak
  calculate_streak-date e = rw (last, day_diff-eq t u) (ground arith)

day-cases : (d e : ℕ) → d ≤ e → (e ≡ d) ⊎ ((e ≡ d + 1) ⊎ (d + 1 < e))
day-cases d e h = ground arith

module _ (s : StreakState) (t u : ℕ) (ts : List ℕ) (inv : Inv u s ts) (later : u ≤ t) where
  step-IsStreak : IsStreak (utc_day t) (saved (calculate_streak s t)).current_streak (t ∷ ts)
  step-IsStreak = elim (day-cases (utc_day u) (utc_day t) (omega arith)) [
    | inl e ↦
        rw (calculate_streak-same s t u inv.last inv.streak.positive e, e)
          (IsStreak-same (utc_day u) s.current_streak t ts inv.streak e)
    | inr (inl e) ↦
        rw (calculate_streak-next s t u inv.last inv.streak.positive e, e)
          (IsStreak-next (utc_day u) s.current_streak t ts inv.streak e)
    | inr (inr e) ↦
        rw (calculate_streak-gap s t u inv.last e) (IsStreak-gap (utc_day u) t ts inv.newest e)
  ]

  step-Inv : Inv t (saved (calculate_streak s t)) (t ∷ ts)
  step-Inv = record {
    last = calculate_streak-date s t u inv.last (omega arith);
    streak = step-IsStreak;
    newest = (omega arith, All-weaken (utc_day u) (utc_day t) ts inv.newest (omega arith));
  }

first-Inv : (t : ℕ) → Inv t (after (t ∷ [])) (t ∷ [])
unfolding after calculate_streak
first-Inv t = record {
  last = refl;
  streak = record { positive = omega arith; filled = λ ago h. ground arith; ended = ground arith };
  newest = (omega arith, tt);
}

-- After any chronological history, the current streak is exactly the number of days in a row,
-- ending on the day of the latest activity, that have an activity; that activity's date is kept.
pub after-Inv : (t : ℕ) (ts : List ℕ) → IsChronological (t ∷ ts) → Inv t (after (t ∷ ts)) (t ∷ ts)
unfolding after
after-Inv t [] h = first-Inv t
after-Inv t (u ∷ ts) h = step-Inv (after (u ∷ ts)) t u (u ∷ ts) (after-Inv u ts h.1) h.0

-- For any activity date at all, also one of the past: the streak is at least 1, the longest streak
-- is the larger of the old one and the new current one, and the stored day never goes back.
calculate_streak_bounds :
    (s : StreakState) (t : ℕ)
    → let r = calculate_streak s t in
      (1 ≤ r.current_streak)
      × (r.longest_streak ≡ max s.longest_streak r.current_streak)
      × ((u : ℕ) → s.last_activity_date ≡ some u → utc_day u ≤ utc_day r.last_activity_date)
unfolding calculate_streak
calculate_streak_bounds s t = elim (Option-cases s.last_activity_date) [
  | inl e ↦ rw e (omega arith, refl, λ u h. cc)
  | inr (u, e) ↦ rw (e, day_diff-eq t u) (ground arith, ground arith, λ u h. ground arith)
]
