-- ===== src/Progress/Consumers/Users.antt =====
-- What the stages of the consumer of CHALLENGE_SOLVED leave alone: the users, the completions and
-- the badges.
use devops_lab.Prelude.{
  ℕ, suc, ◌≡◌, refl, Bool, true, false, ◌||◌, Option, some, String, List, [], ◌∷◌, nat_eq,
  string_eq, ◌==◌, is_some, inl, inr, Bool-cases, Option-cases, ◌∙◌,
}
use devops_lab.Services.{Prisma}
use devops_lab.Core.Rows.{User, Challenge}
use devops_lab.Streak.{calculate_streak}
use devops_lab.Progress.State.{Progress, Badge, is_award}
use devops_lab.Progress.Badges.{award_badge}
use devops_lab.Progress.Badges.Laws.{evaluate_milestones-keeps}
use devops_lab.Progress.Consumers.{
  Outage, Validated, Check, streak_of, credit, xp_earned, upsert_checks, solved_rest, solved_user,
  solved_checks,
}

module _ (P : Prisma) where
  -- The users and the completions are those of the other state.
  pub record Same (s s' : Progress P) : Type 0 where
    pub users : s'.users ≡ s.users
    pub completions : s'.completions ≡ s.completions

  pub Same-refl : (s : Progress P) → Same s s
  Same-refl s = record { users = refl; completions = refl }

  award_badge-Same :
      (a : Progress P) (throws : Bool) (now : ℕ) (u slug : String) (s : Progress P)
      → Same a s
      → Same a (award_badge P throws now u slug s).0
  unfolding award_badge
  award_badge-Same a throws now u slug s h =
      elim (Option-cases (P.find_first (λ (b : Badge). b.slug == slug) s.badges)) [
        | inl e ↦ rw (e, award_badge) h
        | inr (b, e) ↦
            elim (Bool-cases (throws || is_some (P.find_first (is_award u b.id) s.user_badges))) [
              | inl t ↦ rw (e, t, award_badge) h
              | inr t ↦
                  rw (e, t, award_badge) (record { users = h.users; completions = h.completions })
            ]
      ]

  pub solved_rest-Same :
      (o : Outage) (now : ℕ) (ev : Validated) (first : Bool) (streak : ℕ) (a s : Progress P)
      → Same a s
      → Same a (solved_rest P o now ev first streak s)
  unfolding solved_rest
  solved_rest-Same o now ev first streak a s h = elim (Bool-cases o.session) [
    | inl e ↦ rw e h
    | inr e ↦ elim (Bool-cases o.submission) [
      | inl e' ↦ rw (e, e') (record { users = h.users; completions = h.completions })
      | inr e' ↦ elim (Bool-cases first) [
        | inl f ↦
            rw (e, e', f)
              (evaluate_milestones-keeps P (Same a) (award_badge-Same a) o.badge now ev.user_id
                streak (some ev.challenge_id) _
                (record { users = h.users; completions = h.completions }))
        | inr f ↦ rw (e, e', f) (record { users = h.users; completions = h.completions })
      ]
    ]
  ]

  pub upsert_checks-Same :
      (throws : ℕ → Bool) (i now : ℕ) (u : String) (c : ℕ) (cs : List Check) (a s : Progress P)
      → Same a s
      → Same a (upsert_checks P throws i now u c cs s).0
  unfolding upsert_checks
  upsert_checks-Same throws i now u c [] a s h = h
  upsert_checks-Same throws i now u c (x ∷ cs) a s h = elim (Bool-cases (throws i)) [
    | inl e ↦ rw e h
    | inr e ↦ rw e (
        upsert_checks-Same throws (suc i) now u c cs a _
          (record { users = h.users; completions = h.completions }))
  ]

  -- Unless this is the first solve, no user changes.
  pub solved_user-Same :
      (o : Outage) (now : ℕ) (ev : Validated) (c : Option Challenge) (a s : Progress P)
      → Same a s
      → Same a (solved_user P o now ev c false s)
  unfolding solved_user
  solved_user-Same o now ev c a s h =
      elim (Option-cases (P.find_first (λ (u : User). u.id == ev.user_id) s.users)) [
        | inl e ↦ rw (e, solved_user) (solved_rest-Same o now ev false 0 a s h)
        | inr (u, e) ↦
            let streak = (calculate_streak (streak_of u) now).current_streak in
            rw (e, solved_user) (solved_rest-Same o now ev false streak a s h)
      ]

  pub solved_checks-Same :
      (o : Outage) (now : ℕ) (ev : Validated) (c : Option Challenge) (a s : Progress P)
      → Same a s
      → Same a (solved_checks P o now ev c false s)
  unfolding solved_checks
  solved_checks-Same o now ev c a s h =
      let checked = upsert_checks-Same o.check 0 now ev.user_id ev.challenge_id ev.checks a s h in
      elim (Bool-cases (upsert_checks P o.check 0 now ev.user_id ev.challenge_id ev.checks s).1) [
        | inl d ↦ rw d (solved_user-Same o now ev c a _ checked)
        | inr d ↦ rw d checked
      ]

  -- Whether or not this is the first solve, the completions stay the same from here on.
  solved_user-completions :
      (o : Outage) (now : ℕ) (ev : Validated) (c : Option Challenge) (first : Bool) (s : Progress P)
      → (solved_user P o now ev c first s).completions ≡ s.completions
  unfolding solved_user
  solved_user-completions o now ev c false s =
      (solved_user-Same o now ev c s s (Same-refl s)).completions
  solved_user-completions o now ev c true s =
      elim (Option-cases (P.find_first (λ (u : User). u.id == ev.user_id) s.users)) [
        | inl e ↦ rw (e, solved_user)
        | inr (u, e) ↦
            let r = calculate_streak (streak_of u) now in
            let credited = record s {
              users =
                  P.update_many (λ (x : User). x.id == ev.user_id) (credit (xp_earned c) r) s.users;
            } in
            elim (Bool-cases o.user) [
              | inl f ↦ rw (e, f, solved_user)
              | inr f ↦
                  rw (e, f, solved_user)
                    (solved_rest-Same o now ev true r.current_streak credited credited
                      (Same-refl credited)).completions
            ]
      ]

  pub solved_checks-completions :
      (o : Outage) (now : ℕ) (ev : Validated) (c : Option Challenge) (first : Bool) (s : Progress P)
      → (solved_checks P o now ev c first s).completions ≡ s.completions
  unfolding solved_checks
  solved_checks-completions o now ev c first s =
      let checked =
        upsert_checks-Same o.check 0 now ev.user_id ev.challenge_id ev.checks s s (Same-refl s) in
      elim (Bool-cases (upsert_checks P o.check 0 now ev.user_id ev.challenge_id ev.checks s).1) [
        | inl d ↦ rw d (solved_user-completions o now ev c first _ ∙ checked.completions)
        | inr d ↦ rw d checked.completions
      ]

  -- A repeat, however that was found out, changes no user.
  pub solved_checks-repeat :
      (o : Outage) (now : ℕ) (ev : Validated) (c : Option Challenge) (first : Bool) (s : Progress P)
      → first ≡ false
      → (solved_checks P o now ev c first s).users ≡ s.users
  solved_checks-repeat o now ev c false s h =
      (solved_checks-Same o now ev c s s (Same-refl s)).users
  solved_checks-repeat o now ev c true s h = cc
