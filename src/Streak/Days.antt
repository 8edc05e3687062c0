-- ===== src/Streak/Days.antt =====
-- The rounded difference of two UTC midnights is the difference of the two day numbers.
use devops_lab.Prelude.{ℕ, ◌*◌, ◌/◌, ◌≡◌, arith}
use devops_lab.Prelude.Int.{sub_ℕ, round_div}
use devops_lab.Streak.{ms_per_day, day_diff}

-- The number of the UTC day of a date.
abbrev pub utc_day : ℕ → ℕ
utc_day t = t / ms_per_day

round_div-mul : (a b : ℕ) → round_div (sub_ℕ (a * 86400000) (b * 86400000)) 86400000 ≡ sub_ℕ a b
round_div-mul a b = ground arith

pub day_diff-eq :
    (activity last : ℕ) → day_diff activity last ≡ sub_ℕ (utc_day activity) (utc_day last)
unfolding day_diff
day_diff-eq activity last = round_div-mul (utc_day activity) (utc_day last)
