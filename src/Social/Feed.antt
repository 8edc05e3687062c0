-- ===== src/Social/Feed.antt =====
-- services/core/src/modules/challenge/challenge.routes.ts: the feed of the users that one follows.
-- `limit` is what `parseInt` gives, `none` for NaN. An ordered query with a limit is a parameter.
pub mod Chronology
use devops_lab.Prelude.{
  ℕ, zero, suc, min, max, ◌≡◌, Bool, true, false, ◌&&◌, Option, none, some, String, string_eq, ◌==◌,
  List, [], ◌∷◌, ◌++◌, map, any, All, take, or_else, is_some,
}
use devops_lab.Prelude.Int.{ℤ, pos, negsuc}
use devops_lab.Prelude.Sorting.{sort_desc}
use devops_lab.Services.{Prisma}
use devops_lab.Core.Rows.{LabSession, is_completed}
use devops_lab.Progress.State.{UserBadge}
use devops_lab.Social.State.{Social, UserFollow, is_follow_by}

abbrev pub key_of : {Row : Type 0} → (Row → Option ℕ) → Row → ℕ
key_of key r = or_else (key r) 0

abbrev pub HasKey : {Row : Type 0} → (Row → Option ℕ) → Row → Type 0
HasKey key r = is_some (key r) ≡ true

-- `findMany({ where, orderBy: { <key>: "desc" }, take })`
pub record Ordered (P : Prisma) : Type 1 where
  pub latest : {Row : Type 0} → (Row → Option ℕ) → ℕ → (Row → Bool) → P.Table Row → List Row
  -- If no key is null, the keys are the greatest ones of the matching rows, in order; rows with
  -- the same key come in any order.
  pub map-latest :
      {Row : Type 0} (key : Row → Option ℕ) (n : ℕ) (p : Row → Bool) (t : P.Table Row)
      → All (HasKey key) (P.find_many p t)
      → map (key_of key) (latest key n p t)
        ≡ take n (sort_desc (λ k. k) (map (key_of key) (P.find_many p t)))
  -- The rows are among the matching ones.
  pub latest-All :
      {Row : Type 0} (Q : Row → Type 0) (key : Row → Option ℕ) (n : ℕ) (p : Row → Bool)
      (t : P.Table Row)
      → All Q (P.find_many p t)
      → All Q (latest key n p t)

-- `completion-${c.id}` and `badge-${b.userId}-${b.badgeId}`, with what the item shows.
pub data FeedSource : Type 0 where
  challenge_solved : ℕ → ℕ → FeedSource
  badge_earned : String → ℕ → FeedSource

pub record FeedItem : Type 0 where
  pub source : FeedSource
  pub user_id : String
  pub timestamp : ℕ

-- `Math.min(Math.max(parseInt(limit, 10) || 20, 1), 50)`
abbrev pub take_limit : Option ℤ → ℕ
take_limit none = 20
take_limit (some (pos zero)) = 20
take_limit (some (pos (suc n))) = min (max (suc n) 1) 50
take_limit (some (negsuc n)) = 1

abbrev pub followed_by : (P : Prisma) → String → Social P → List String
followed_by P user_id s =
    map (λ (f : UserFollow). f.followed_id) (P.find_many (is_follow_by user_id) s.follows)

abbrev pub is_among_ids : List String → String → Bool
is_among_ids ids id = any (λ (x : String). x == id) ids

abbrev pub is_solve_of : List String → LabSession → Bool
is_solve_of ids c = is_among_ids ids c.user_id && is_completed c.status

abbrev pub is_badge_of : List String → UserBadge → Bool
is_badge_of ids b = is_among_ids ids b.user_id

abbrev pub ended : LabSession → Option ℕ
ended c = c.ended_at

abbrev pub earned : UserBadge → Option ℕ
earned b = some b.earned_at

abbrev pub solve_item : LabSession → FeedItem
solve_item c = record {
  source = challenge_solved c.id c.challenge_id;
  user_id = c.user_id;
  timestamp = or_else c.ended_at c.started_at;
}

abbrev pub badge_item : UserBadge → FeedItem
badge_item b = record {
  source = badge_earned b.user_id b.badge_id;
  user_id = b.user_id;
  timestamp = b.earned_at;
}

module _ (P : Prisma) (O : Ordered P) where
  unfoldable pub feed_of : List String → ℕ → Social P → List FeedItem
  feed_of [] limit s = []
  feed_of (id ∷ ids) limit s =
      let completions = O.latest ended limit (is_solve_of (id ∷ ids)) s.sessions in
      let badges = O.latest earned limit (is_badge_of (id ∷ ids)) s.user_badges in
      take limit (
        sort_desc (λ (i : FeedItem). i.timestamp)
          (map solve_item completions ++ map badge_item badges))

  -- GET /users/me/feed
  unfoldable pub feed : String → Option ℤ → Social P → List FeedItem
  unfolding feed_of
  feed user_id limit s = feed_of (followed_by P user_id s) (take_limit limit) s
