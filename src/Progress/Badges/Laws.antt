-- ===== src/Progress/Badges/Laws.antt =====
-- services/core/src/utils/badges.ts: what the award of one badge does to the users' badges.
use devops_lab.Prelude.{
  ℕ, ◌≤◌, ◌≡◌, refl, Bool, true, false, ◌&&◌, ◌||◌, Option, none, some, String, List, [], ◌∷◌,
  nat_eq, string_eq, ◌==◌, is_some, any, arith, count, count-append, any-append, inl, inr,
  Bool-cases, Option-cases, eq_self, eq_of_beq,
}
use devops_lab.Services.{Prisma}
use devops_lab.Core.Rows.{Challenge}
use devops_lab.Progress.State.{Progress, Badge, UserBadge, is_award}
use devops_lab.Progress.Badges.{on_path, award_badge, award_when, award_path, evaluate_milestones}

count_of_any-false :
    {Row : Type 0} (p : Row → Bool) (rs : List Row) → any p rs ≡ false → count p rs ≡ 0
count_of_any-false p [] h = refl
count_of_any-false p (r ∷ rs) h = ground (arith, count_of_any-false p rs)

and_left : (a b : Bool) → (a && b) ≡ true → a ≡ true
and_left a b h = ground arith

and_right : (a b : Bool) → (a && b) ≡ true → b ≡ true
and_right a b h = ground arith

pub none_of_or {ℓ} : {A : Type ℓ} (c : Bool) (o : Option A) → (c || is_some o) ≡ false → o ≡ none
none_of_or c none h = refl
none_of_or c (some a) h = absurd (ground arith)

pub some_of_is_some :
    {Row : Type 0} (P : Prisma) (p : Row → Bool) (t : P.Table Row)
    → is_some (P.find_first p t) ≡ true
    → any p (P.rows t) ≡ true
some_of_is_some P p t h = elim (Option-cases (P.find_first p t)) [
  | inl e ↦ absurd (ground (arith, h, e))
  | inr (r, e) ↦ let found = P.find_first-some p t r e in found.1 p found.0
]

module _ (P : Prisma) where
  -- What every award keeps is kept by the whole evaluation.
  module _ (Q : Progress P → Type 0)
      (step : (throws : Bool) (now : ℕ) (u slug : String) (s : Progress P)
        → Q s
        → Q (award_badge P throws now u slug s).0) where
    pub award_when-keeps :
        (c : Bool) (throws : String → Bool) (now : ℕ) (u slug : String)
        (r : Progress P × List String)
        → Q r.0
        → Q (award_when P c throws now u slug r).0
    unfolding award_when
    award_when-keeps c throws now u slug (s, l) h = elim (Bool-cases c) [
      | inl e ↦ rw e (step (throws slug) now u slug s h)
      | inr e ↦ rw e h
    ]

    pub award_path-keeps :
        (throws : String → Bool) (now : ℕ) (u : String) (c : Option ℕ)
        (r : Progress P × List String)
        → Q r.0
        → Q (award_path P throws now u c r).0
    unfolding award_path
    award_path-keeps throws now u none r h = h
    award_path-keeps throws now u (some id) (s, l) h =
        elim (Option-cases (P.find_first (λ (c : Challenge). c.id == id) s.challenges)) [
          | inl e ↦ rw (e, award_path) h
          | inr (c, e) ↦ elim (Option-cases c.path_id) [
            | inl f ↦ rw (e, f, award_path) h
            | inr (path, f) ↦
                elim (Option-cases
                  (P.find_first (λ (b : Badge). on_path path b.roadmap_id) s.badges)) [
                    | inl g ↦ rw (e, f, g, award_path) h
                    | inr (b, g) ↦
                        rw (e, f, g, award_path) (award_when-keeps _ throws now u b.slug (s, l) h)
                  ]
          ]
        ]

    pub evaluate_milestones-keeps :
        (throws : String → Bool) (now : ℕ) (u : String) (streak : ℕ) (c : Option ℕ) (s : Progress P)
        → Q s
        → Q (evaluate_milestones P throws now u streak c s).0
    unfolding evaluate_milestones
    evaluate_milestones-keeps throws now u streak c s h = award_path-keeps throws now u c _ (
        award_when-keeps _ throws now u "streak-30" _ (
          award_when-keeps _ throws now u "streak-7" _ (
            award_when-keeps _ throws now u "streak-3" _
              (award_when-keeps _ throws now u "first-blood" (s, []) h))))

  -- No user has a badge twice.
  abbrev pub IsSingle : Progress P → Type 0
  IsSingle s = (u : String) (b : ℕ) → count (is_award u b) (P.rows s.user_badges) ≤ 1

  pub award_badge-IsSingle :
      (throws : Bool) (now : ℕ) (u slug : String) (s : Progress P)
      → IsSingle s
      → IsSingle (award_badge P throws now u slug s).0
  unfolding award_badge
  award_badge-IsSingle throws now u slug s h v k =
      elim (Option-cases (P.find_first (λ (b : Badge). b.slug == slug) s.badges)) [
        | inl e ↦ rw (e, award_badge) (h v k)
        | inr (b, e) ↦
            elim (Bool-cases (throws || is_some (P.find_first (is_award u b.id) s.user_badges))) [
              | inl t ↦ rw (e, t, award_badge) (h v k)
              | inr t ↦
                  let new : UserBadge = record { user_id = u; badge_id = b.id; earned_at = now } in
                  let rows = P.rows s.user_badges in
                  rw (e, t, award_badge, P.rows-create, count-append (is_award v k) rows (new ∷ []))
                    (elim (Bool-cases (is_award v k new)) [
                      | inr m ↦ rw m (omega (arith, h v k))
                      | inl m ↦
                          let unseen =
                            P.find_first-none (is_award u b.id) s.user_badges
                              (none_of_or throws _ t) in
                          let user : u ≡ v = eq_of_beq u v (and_left _ _ m) in
                          let badge : b.id ≡ k = eq_of_beq b.id k (and_right _ _ m) in
                          let absent : any (is_award v k) rows ≡ false =
                            rw (← user, ← badge) unseen in
                          rw m (omega (arith, count_of_any-false (is_award v k) rows absent))
                    ])
            ]
      ]

  -- The user has the badge.
  abbrev pub holds : String → ℕ → Progress P → Bool
  holds u b s = any (is_award u b) (P.rows s.user_badges)

  pub award_badge-holds :
      (u' : String) (k : ℕ) (throws : Bool) (now : ℕ) (u slug : String) (s : Progress P)
      → holds u' k s ≡ true
      → holds u' k (award_badge P throws now u slug s).0 ≡ true
  unfolding award_badge
  award_badge-holds u' k throws now u slug s h =
      elim (Option-cases (P.find_first (λ (b : Badge). b.slug == slug) s.badges)) [
        | inl e ↦ rw (e, award_badge) h
        | inr (b, e) ↦
            elim (Bool-cases (throws || is_some (P.find_first (is_award u b.id) s.user_badges))) [
              | inl t ↦ rw (e, t, award_badge) h
              | inr t ↦ rw (e, t, award_badge, P.rows-create, any-append) (rw h)
            ]
      ]

  pub award_badge-badges :
      (t : P.Table Badge) (throws : Bool) (now : ℕ) (u slug : String) (s : Progress P)
      → s.badges ≡ t
      → (award_badge P throws now u slug s).0.badges ≡ t
  unfolding award_badge
  award_badge-badges t throws now u slug s h =
      elim (Option-cases (P.find_first (λ (b : Badge). b.slug == slug) s.badges)) [
        | inl e ↦ rw (e, award_badge) h
        | inr (b, e) ↦
            elim (Bool-cases (throws || is_some (P.find_first (is_award u b.id) s.user_badges))) [
              | inl t ↦ rw (e, t, award_badge) h
              | inr t ↦ rw (e, t, award_badge) h
            ]
      ]

  -- An award that does not throw leaves the user with the badge.
  pub award_badge-held :
      (now : ℕ) (u slug : String) (s : Progress P) (b : Badge)
      → P.find_first (λ (x : Badge). x.slug == slug) s.badges ≡ some b
      → holds u b.id (award_badge P false now u slug s).0 ≡ true
  unfolding award_badge
  award_badge-held now u slug s b e =
      elim (Bool-cases (is_some (P.find_first (is_award u b.id) s.user_badges))) [
        | inl t ↦ rw (e, t, award_badge) (some_of_is_some P (is_award u b.id) s.user_badges t)
        | inr t ↦
            rw (e, t, award_badge, P.rows-create, any-append)
              (ground (arith, eq_self u, eq_self b.id))
      ]

  pub award_when-held :
      (c : Bool) (throws : String → Bool) (now : ℕ) (u slug : String) (r : Progress P × List String)
      (b : Badge)
      → c ≡ true
      → throws slug ≡ false
      → P.find_first (λ (x : Badge). x.slug == slug) r.0.badges ≡ some b
      → holds u b.id (award_when P c throws now u slug r).0 ≡ true
  unfolding award_when
  award_when-held c throws now u slug (s, l) b hc ht e =
      rw (hc, ht) (award_badge-held now u slug s b e)
