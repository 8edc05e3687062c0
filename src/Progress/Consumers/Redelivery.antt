-- ===== src/Progress/Consumers/Redelivery.antt =====
-- services/core/src/modules/progress/consumers.ts: a solved event that Kafka delivers again.
use devops_lab.Prelude.{
  ℕ, ◌≡◌, refl, Bool, true, false, not, List, [], ◌∷◌, nat_eq, string_eq, is_some, arith, inl, inr,
  Bool-cases, Option-cases, any, any-append, update_where, eq_self, ◌∙◌, ap,
}
use devops_lab.Services.{Prisma}
use devops_lab.Core.Rows.{is_guest}
use devops_lab.Progress.State.{Progress, Completion, is_completion, upsert}
use devops_lab.Progress.Badges.Laws.{some_of_is_some}
use devops_lab.Progress.Consumers.{
  Outage, Validated, solved_member, on_solved, with_node, with_completion, challenge_of,
  is_first_solve, close_session,
}
use devops_lab.Progress.Consumers.Users.{solved_checks-repeat, solved_checks-completions}

any-update_id :
    {Row : Type 0} (p : Row → Bool) (rs : List Row) → any p (update_where p (λ r. r) rs) ≡ any p rs
any-update_id p [] = refl
any-update_id p (r ∷ rs) = ground (arith, any-update_id p rs)

module _ (P : Prisma) where
  -- The completion is recorded.
  abbrev pub is_recorded : Validated → Progress P → Bool
  is_recorded ev s = any (is_completion ev.user_id ev.challenge_id) (P.rows s.completions)

  upsert-recorded :
      (ev : Validated) (t : P.Table Completion)
      → any (is_completion ev.user_id ev.challenge_id) (
          P.rows (
            upsert P
              (is_completion ev.user_id ev.challenge_id)
              (λ c. c)
              (record { user_id = ev.user_id; node_id = ev.challenge_id })
              t))
        ≡ true
  upsert-recorded ev t =
      let p = is_completion ev.user_id ev.challenge_id in
      let new : Completion = record { user_id = ev.user_id; node_id = ev.challenge_id } in
      elim (Bool-cases (is_some (P.find_first p t))) [
        | inl e ↦ rw (e, P.rows-update_many) (any-update_id p (P.rows t) ∙ some_of_is_some P p t e)
        | inr e ↦
            rw (e, P.rows-create)
              (any-append p (P.rows t) (new ∷ [])
                ∙ ground (arith, eq_self ev.user_id, eq_self ev.challenge_id))
      ]

  find-recorded :
      (ev : Validated) (s : Progress P)
      → is_recorded ev s ≡ true
      → is_some (P.find_first (is_completion ev.user_id ev.challenge_id) s.completions) ≡ true
  find-recorded ev s h =
      elim (Option-cases (P.find_first (is_completion ev.user_id ev.challenge_id) s.completions)) [
        | inl e ↦ absurd (ground (arith, h, P.find_first-none _ s.completions e))
        | inr (r, e) ↦ rw e
      ]

  -- A repeat changes no user.
  solved_member-repeat :
      (o : Outage) (now : ℕ) (ev : Validated) (s : Progress P)
      → is_recorded ev s ≡ true
      → (solved_member P o now ev s).users ≡ s.users
  unfolding solved_member
  solved_member-repeat o now ev s h = elim (Bool-cases o.node) [
    | inl e ↦ rw e
    | inr e ↦ elim (Bool-cases o.completion) [
      | inl e' ↦ rw (e, e')
      | inr e' ↦
          let written = with_completion P ev (with_node P ev s) in
          simp (e, e')
            (solved_checks-repeat P o now ev (challenge_of P ev s) (is_first_solve P ev s) written
              (ap not (find-recorded ev s h)))
    ]
  ]

  -- Once the two first writes have succeeded, the completion is recorded.
  solved_member-recorded :
      (o : Outage) (now : ℕ) (ev : Validated) (s : Progress P)
      → o.node ≡ false
      → o.completion ≡ false
      → is_recorded ev (solved_member P o now ev s) ≡ true
  unfolding solved_member
  solved_member-recorded o now ev s e e' =
      let written = with_completion P ev (with_node P ev s) in
      let same =
        solved_checks-completions P o now ev (challenge_of P ev s) (is_first_solve P ev s)
          written in
      rw (e, e')
        (ap (λ t. any (is_completion ev.user_id ev.challenge_id) (P.rows t)) same
          ∙ upsert-recorded ev s.completions)

  close_session-users :
      (t : Bool) (now id : ℕ) (s : Progress P) → (close_session P t now id s).users ≡ s.users
  unfolding close_session
  close_session-users t now id s = ground arith

  -- A delivery of a solve that has recorded the completion, whatever failed behind that, is the
  -- last one that changes a user: a redelivery leaves the XP and the streaks as they are. So a
  -- solve is never credited twice; a solve whose user update failed is never credited.
  pub on_solved-redelivery :
      (o o' : Outage) (now later : ℕ) (ev : Validated) (s : Progress P)
      → o.node ≡ false
      → o.completion ≡ false
      → (on_solved P o' later ev (on_solved P o now ev s)).users ≡ (on_solved P o now ev s).users
  unfolding on_solved
  on_solved-redelivery o o' now later ev s e e' = elim (Bool-cases (is_guest ev.user_id)) [
    | inl g ↦ rw g (close_session-users o'.session later ev.submission_id _)
    | inr m ↦ rw m (solved_member-repeat o' later ev _ (solved_member-recorded o now ev s e e'))
  ]
