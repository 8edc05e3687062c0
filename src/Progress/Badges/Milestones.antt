-- ===== src/Progress/Badges/Milestones.antt =====
-- services/core/src/utils/badges.ts: what the evaluation of the milestones does to the users' badges.
use devops_lab.Prelude.{
  ℕ, ◌≤◌, ◌≡◌, refl, Bool, true, false, Option, some, String, List, [], nat_eq, string_eq, ◌==◌,
  leb, arith,
}
use devops_lab.Services.{Prisma}
use devops_lab.Progress.State.{Progress, Badge}
use devops_lab.Progress.Badges.{completed_of, award_when, award_path, evaluate_milestones}
use devops_lab.Progress.Badges.Laws.{
  award_when-keeps, award_path-keeps, evaluate_milestones-keeps, award_badge-IsSingle,
  award_badge-holds, award_badge-badges, award_when-held, holds, IsSingle,
}

-- The milestones of the streak, with their badges.
pub data Milestone : Type 0 where
  three_days seven_days thirty_days : Milestone

abbrev pub slug_of : Milestone → String
slug_of three_days = "streak-3"
slug_of seven_days = "streak-7"
slug_of thirty_days = "streak-30"

abbrev pub days_of : Milestone → ℕ
days_of three_days = 3
days_of seven_days = 7
days_of thirty_days = 30

module _ (P : Prisma) (throws : String → Bool) (now : ℕ) (u : String) where
  -- A badge that is held stays held, and the table of the badges stays the same.
  module _ (b : ℕ) (c : Bool) (slug : String) (r : Progress P × List String) where
    award_when-holds :
        holds P u b r.0 ≡ true → holds P u b (award_when P c throws now u slug r).0 ≡ true
    award_when-holds =
        award_when-keeps P (λ x. holds P u b x ≡ true) (award_badge-holds P u b) c throws now u slug
          r

  award_when-badges :
      (t : P.Table Badge) (c : Bool) (slug : String) (r : Progress P × List String)
      → r.0.badges ≡ t
      → (award_when P c throws now u slug r).0.badges ≡ t
  award_when-badges t c slug r =
      award_when-keeps P (λ x. x.badges ≡ t) (award_badge-badges P t) c throws now u slug r

  award_path-holds :
      (b : ℕ) (c : Option ℕ) (r : Progress P × List String)
      → holds P u b r.0 ≡ true
      → holds P u b (award_path P throws now u c r).0 ≡ true
  award_path-holds b c r =
      award_path-keeps P (λ x. holds P u b x ≡ true) (award_badge-holds P u b) throws now u c r

  -- After the evaluation a user whose streak has reached a milestone has its badge, provided that
  -- the badge is in the table and that its award does not throw.
  evaluate_milestones-holds :
      (streak : ℕ) (c : Option ℕ) (s : Progress P) (b : Badge) (m : Milestone)
      → days_of m ≤ streak
      → throws (slug_of m) ≡ false
      → P.find_first (λ (x : Badge). x.slug == slug_of m) s.badges ≡ some b
      → holds P u b.id (evaluate_milestones P throws now u streak c s).0 ≡ true
  unfolding evaluate_milestones
  evaluate_milestones-holds streak c s b m le ok e = at_milestone m le ok e
    where
      total : Bool
      total = leb 1 (P.count_rows (completed_of u) s.sessions)

      first : Progress P × List String
      first = award_when P total throws now u "first-blood" (s, [])

      three : Progress P × List String
      three = award_when P (leb 3 streak) throws now u "streak-3" first

      seven : Progress P × List String
      seven = award_when P (leb 7 streak) throws now u "streak-7" three

      thirty : Progress P × List String
      thirty = award_when P (leb 30 streak) throws now u "streak-30" seven

      in_first : first.0.badges ≡ s.badges
      in_first = award_when-badges s.badges total "first-blood" (s, []) refl

      in_three : three.0.badges ≡ s.badges
      in_three = award_when-badges s.badges (leb 3 streak) "streak-3" first in_first

      in_seven : seven.0.badges ≡ s.badges
      in_seven = award_when-badges s.badges (leb 7 streak) "streak-7" three in_three

      at_milestone :
          (m : Milestone)
          → days_of m ≤ streak
          → throws (slug_of m) ≡ false
          → P.find_first (λ (x : Badge). x.slug == slug_of m) s.badges ≡ some b
          → holds P u b.id (award_path P throws now u c thirty).0 ≡ true
      at_milestone three_days le ok e = award_path-holds b.id c thirty (
          award_when-holds b.id (leb 30 streak) "streak-30" seven (
            award_when-holds b.id (leb 7 streak) "streak-7" three (
              award_when-held P (leb 3 streak) throws now u "streak-3" first b (ground arith) ok
                (rw in_first e))))
      at_milestone seven_days le ok e = award_path-holds b.id c thirty (
          award_when-holds b.id (leb 30 streak) "streak-30" seven (
            award_when-held P (leb 7 streak) throws now u "streak-7" three b (ground arith) ok
              (rw in_three e)))
      at_milestone thirty_days le ok e = award_path-holds b.id c thirty (
          award_when-held P (leb 30 streak) throws now u "streak-30" seven b (ground arith) ok
            (rw in_seven e))

  -- If no user holds a badge twice, the evaluation of the milestones keeps it so, however often it
  -- runs.
  pub evaluate_milestones-IsSingle :
      (streak : ℕ) (c : Option ℕ) (s : Progress P)
      → IsSingle P s
      → IsSingle P (evaluate_milestones P throws now u streak c s).0
  evaluate_milestones-IsSingle =
      evaluate_milestones-keeps P (IsSingle P) (award_badge-IsSingle P) throws now u
