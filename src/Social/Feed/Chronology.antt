-- ===== src/Social/Feed/Chronology.antt =====
-- services/core/src/modules/challenge/challenge.routes.ts: the feed shows the latest of everything
-- that the followed users have done, although each query is cut before the two are put together.
use mathlib.Core.List.{map-append}
use mathlib.Core.Path.{ap₂}
use devops_lab.Prelude.{
  ℕ, zero, suc, ◌≡◌, refl, sym, ap, ◌∙◌, Bool, true, false, inl, inr, Option, none, some, String,
  Bool-cases, List, [], ◌∷◌, ◌++◌, map, All, All-take, All-append, take, where_rows, or_else,
  is_some, arith,
}
use devops_lab.Prelude.Int.{ℤ}
use devops_lab.Prelude.Sorting.{sort_desc, take-sort-append, map-sort, sort-All}
use devops_lab.Services.{Prisma}
use devops_lab.Core.Rows.{LabSession}
use devops_lab.Progress.State.{UserBadge}
use devops_lab.Social.State.{Social}
use devops_lab.Social.Feed.{
  Ordered, FeedItem, HasKey, key_of, take_limit, followed_by, is_among_ids, is_solve_of,
  is_badge_of, ended, earned, solve_item, badge_item, feed_of, feed,
}

pub map-take {ℓ κ} :
    {A : Type ℓ} {B : Type κ} (f : A → B) (n : ℕ) (xs : List A)
    → map f (take n xs) ≡ take n (map f xs)
map-take f zero xs = refl
map-take f (suc n) [] = refl
map-take f (suc n) (x ∷ xs) = ap (λ l. f x ∷ l) (map-take f n xs)

abbrev pub at : FeedItem → ℕ
at i = i.timestamp

keyed : (o : Option ℕ) (d e : ℕ) → is_some o ≡ true → or_else o d ≡ or_else o e
keyed none d e h = absurd cc
keyed (some x) d e h = refl

-- An item's timestamp is the end of its session.
map-solve :
    (cs : List LabSession)
    → All (HasKey ended) cs
    → map at (map solve_item cs) ≡ map (key_of ended) cs
map-solve [] h = refl
map-solve (c ∷ cs) h = ap₂ (λ k l. k ∷ l) (keyed c.ended_at c.started_at 0 h.0) (map-solve cs h.1)

map-badge : (bs : List UserBadge) → map at (map badge_item bs) ≡ map (key_of earned) bs
map-badge [] = refl
map-badge (b ∷ bs) = ap (λ l. b.earned_at ∷ l) (map-badge bs)

where-none : {Row : Type 0} (rows : List Row) → where_rows (λ r. false) rows ≡ []
where-none [] = refl
where-none (r ∷ rows) = where-none rows

take-nil : {A : Type 0} (n : ℕ) → take {A = A} n [] ≡ []
take-nil zero = refl
take-nil (suc n) = refl

All-map :
    {A B : Type 0} (Q : B → Type 0) (f : A → B) (xs : List A)
    → All (λ x. Q (f x)) xs
    → All Q (map f xs)
All-map Q f [] h = tt
All-map Q f (x ∷ xs) h = (h.0, All-map Q f xs h.1)

All-matching :
    {Row : Type 0} (p : Row → Bool) (rows : List Row) → All (λ r. p r ≡ true) (where_rows p rows)
All-matching p [] = tt
All-matching p (r ∷ rows) = elim (Bool-cases (p r)) [
  | inl e ↦ rw e (e, All-matching p rows)
  | inr e ↦ rw e (All-matching p rows)
]

every_earned : (bs : List UserBadge) → All (HasKey earned) bs
every_earned [] = tt
every_earned (b ∷ bs) = (refl, every_earned bs)

module _ (P : Prisma) (O : Ordered P) where
  -- The times of all that the followed users have solved and earned.
  abbrev pub times_of : List String → Social P → List ℕ
  times_of ids s =
      map (key_of ended) (P.find_many (is_solve_of ids) s.sessions)
      ++ map (key_of earned) (P.find_many (is_badge_of ids) s.user_badges)

  abbrev pub IsEnded : List String → Social P → Type 0
  IsEnded ids s = All (HasKey ended) (P.find_many (is_solve_of ids) s.sessions)

  feed_of-latest :
      (ids : List String) (n : ℕ) (s : Social P)
      → IsEnded ids s
      → map at (feed_of P O ids n s) ≡ take n (sort_desc (λ k. k) (times_of ids s))
  unfolding feed_of sort_desc
  feed_of-latest [] n s h =
      let no_solves =
        P.find_many_lem (is_solve_of []) s.sessions ∙ where-none (P.rows s.sessions) in
      let no_badges =
        P.find_many_lem (is_badge_of []) s.user_badges ∙ where-none (P.rows s.user_badges) in
      rw (no_solves, no_badges) (sym (take-nil n))
  feed_of-latest (id ∷ ids) n s h =
      let solved = is_solve_of (id ∷ ids) in
      let badged = is_badge_of (id ∷ ids) in
      let cs = O.latest ended n solved s.sessions in
      let bs = O.latest earned n badged s.user_badges in
      let cs_keyed = O.latest-All (HasKey ended) ended n solved s.sessions h in
      let bs_keyed = every_earned (P.find_many badged s.user_badges) in
      let items = map solve_item cs ++ map badge_item bs in
      let keys = λ (r : List ℕ). take n (sort_desc (λ k. k) r) in
      let left = map-solve cs cs_keyed ∙ O.map-latest ended n solved s.sessions h in
      let right = map-badge bs ∙ O.map-latest earned n badged s.user_badges bs_keyed in
      map-take at n (sort_desc at items)
      ∙ ap (take n) (map-sort (λ k. k) at items)
      ∙ ap keys (map-append at (map solve_item cs) (map badge_item bs))
      ∙ ap keys (ap₂ (λ k l. k ++ l) left right)
      ∙ take-sort-append (λ k. k) n (map (key_of ended) (P.find_many solved s.sessions))
          (map (key_of earned) (P.find_many badged s.user_badges))

  -- An item is of a followed user.
  abbrev pub IsOf : List String → FeedItem → Type 0
  IsOf ids i = is_among_ids ids i.user_id ≡ true

  -- The rows of an ordered query match.
  latest-matching :
      {Row : Type 0} (key : Row → Option ℕ) (n : ℕ) (p : Row → Bool) (t : P.Table Row)
      → All (λ r. p r ≡ true) (O.latest key n p t)
  latest-matching key n p t =
      O.latest-All (λ r. p r ≡ true) key n p t
        (rw (P.find_many_lem p t) (All-matching p (P.rows t)))

  solve-IsOf :
      (ids : List String) (cs : List LabSession)
      → All (λ c. is_solve_of ids c ≡ true) cs
      → All (IsOf ids) (map solve_item cs)
  solve-IsOf ids [] h = tt
  solve-IsOf ids (c ∷ cs) h = (ground (arith, h.0), solve-IsOf ids cs h.1)

  feed_of-IsOf : (ids : List String) (n : ℕ) (s : Social P) → All (IsOf ids) (feed_of P O ids n s)
  unfolding feed_of
  feed_of-IsOf [] n s = tt
  feed_of-IsOf (id ∷ ids) n s =
      let solved = is_solve_of (id ∷ ids) in
      let badged = is_badge_of (id ∷ ids) in
      let cs = O.latest ended n solved s.sessions in
      let bs = O.latest earned n badged s.user_badges in
      let items = map solve_item cs ++ map badge_item bs in
      All-take (IsOf (id ∷ ids)) n (sort_desc at items) (
        sort-All at (IsOf (id ∷ ids)) items (
          All-append (IsOf (id ∷ ids)) (map solve_item cs) (map badge_item bs)
            (solve-IsOf (id ∷ ids) cs (latest-matching ended n solved s.sessions))
            (All-map (IsOf (id ∷ ids)) badge_item bs
              (latest-matching earned n badged s.user_badges))))

  -- If every completed session of the followed users has an end, the times in the feed are the
  -- latest ones, up to the limit and in order, of all that the followed users have solved and
  -- earned, as if the two queries had not been limited before they were put together, and every
  -- item is of a followed user.
  pub feed-latest :
      (user_id : String) (limit : Option ℤ) (s : Social P)
      → IsEnded (followed_by P user_id s) s
      → let ids = followed_by P user_id s in
        let items = feed P O user_id limit s in
        (map at items ≡ take (take_limit limit) (sort_desc (λ k. k) (times_of ids s)))
        × All (IsOf ids) items
  unfolding feed
  feed-latest user_id limit s h =
      let ids = followed_by P user_id s in
      (feed_of-latest ids (take_limit limit) s h, feed_of-IsOf ids (take_limit limit) s)
