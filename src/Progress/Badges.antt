-- ===== src/Progress/Badges.antt =====
-- services/core/src/utils/badges.ts: the award of a badge, and the milestones. A call of the
-- database that throws makes an award answer "not awarded", before anything is written.
pub mod Laws
pub mod Milestones
use devops_lab.Prelude.{
  ℕ, ◌+◌, Bool, true, false, ◌&&◌, ◌||◌, Option, none, some, String, List, [], ◌∷◌, ◌++◌, map,
  nat_eq, string_eq, ◌==◌, is_some, leb, any, length, if◌then◌else◌,
}
use devops_lab.Services.{Prisma}
use devops_lab.Core.Rows.{LabSession, Challenge, is_completed}
use devops_lab.Progress.State.{Progress, Badge, UserBadge, is_award}

abbrev pub completed_of : String → LabSession → Bool
completed_of user_id s = s.user_id == user_id && is_completed s.status

-- The test of `every` on the challenges of a path, against the completed sessions of the user.
pub every_completed : List Challenge → List LabSession → Bool
every_completed [] done = true
every_completed (c ∷ cs) done =
    any (λ (s : LabSession). s.challenge_id == c.id) done && every_completed cs done

abbrev pub on_path : ℕ → Option ℕ → Bool
on_path path none = false
on_path path (some p) = p == path

module _ (P : Prisma) where
  -- `awardBadgeIfEligible`: the new state, and whether the badge was awarded. `throws` says whether
  -- a call of the database throws.
  unfoldable pub award_badge : Bool → ℕ → String → String → Progress P → Progress P × Bool
  award_badge throws now user_id slug s =
      elim (P.find_first (λ (b : Badge). b.slug == slug) s.badges) [
        | none ↦ (s, false)
        | some b ↦
            if throws || is_some (P.find_first (is_award user_id b.id) s.user_badges)
            then (s, false)
            else (
              record s {
                user_badges =
                    P.create (record { user_id = user_id; badge_id = b.id; earned_at = now })
                      s.user_badges;
              },
              true,
            )
      ]

  -- The award under a condition, and the slug that is pushed if it was made.
  unfoldable pub award_when :
      Bool
      → (String → Bool)
      → ℕ
      → String
      → String
      → Progress P × List String
      → Progress P × List String
  unfolding award_badge
  award_when condition throws now user_id slug (s, awarded) =
      let (s', made) = award_badge (throws slug) now user_id slug s in
      if condition then (s', if made then awarded ++ slug ∷ [] else awarded) else (s, awarded)

  -- The learning path of the challenge, if the user has completed all of it, has its own badge.
  unfoldable pub award_path :
      (String → Bool) → ℕ → String → Option ℕ → Progress P × List String → Progress P × List String
  unfolding award_when every_completed
  award_path throws now user_id none r = r
  award_path throws now user_id (some challenge_id) (s, awarded) =
      elim (P.find_first (λ (c : Challenge). c.id == challenge_id) s.challenges) [
        | none ↦ (s, awarded)
        | some c ↦ elim c.path_id [
          | none ↦ (s, awarded)
          | some path ↦
              let cs = P.find_many (λ (c : Challenge). on_path path c.path_id) s.challenges in
              let done = P.find_many (completed_of user_id) s.sessions in
              elim (P.find_first (λ (b : Badge). on_path path b.roadmap_id) s.badges) [
                | none ↦ (s, awarded)
                | some b ↦
                    award_when (leb 1 (length cs) && every_completed cs done) throws now user_id
                      b.slug (s, awarded)
              ]
        ]
      ]

  -- `evaluateMilestoneBadges`; `throws` tells the awards that throw. The new state and the slugs of the badges that were awarded.
  unfoldable pub evaluate_milestones :
      (String → Bool) → ℕ → String → ℕ → Option ℕ → Progress P → Progress P × List String
  unfolding award_path
  evaluate_milestones throws now user_id streak challenge_id s =
      let total = P.count_rows (completed_of user_id) s.sessions in
      let first = award_when (leb 1 total) throws now user_id "first-blood" (s, []) in
      let three = award_when (leb 3 streak) throws now user_id "streak-3" first in
      let seven = award_when (leb 7 streak) throws now user_id "streak-7" three in
      let thirty = award_when (leb 30 streak) throws now user_id "streak-30" seven in
      award_path throws now user_id challenge_id thirty
