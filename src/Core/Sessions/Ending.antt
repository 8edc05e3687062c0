-- ===== src/Core/Sessions/Ending.antt =====
-- DELETE /session/:id and DELETE /session/active: the sessions, the outbox and the brokers.
use devops_lab.Prelude.{
  ℕ, ◌≡◌, refl, inl, inr, Bool, true, false, ◌||◌, String, List, [], ◌∷◌, arith, All, any, count,
  update_where, where_rows, nat_eq, string_eq, ◌==◌, Bool-cases, Option-cases, eq_self, not, subst,
  sym, if_either, if◌then◌else◌, ◌∙◌, ◌≤◌,
}
use devops_lab.Services.{Prisma, Redis}
use devops_lab.Core.Rows.{
  LabSession, Key, session_ended, ended_terminated, terminate_sandbox, terminated,
}
use devops_lab.Core.State.{Core}
use devops_lab.Core.Start.{active_of}
use devops_lab.Core.Start.Outcome.{publish_inline-sessions}
use devops_lab.Core.Delivered.{IsDelivered, publish_inline-IsDelivered, create-AllDelivered}
use devops_lab.Core.Sessions.{
  EndRequest, is_live, close_with, end_one, delete_session, end_all, delete_active, session_health,
}
use devops_lab.Core.Sessions.Lifecycle.{Evolves, Evolves-refl, Evolves-close, close-ends}
use devops_lab.Core.Sessions.Owned.{
  ClosesOf, ClosesOf-refl, ClosesOf-trans, ClosesOf-close, Owned, Owned-close, Owned-where,
}

module _ (P : Prisma) (R : Redis Key ℕ) where
  -- The sessions after the end of one, answered or not.
  end_one-rows :
      (q : EndRequest) (id : ℕ) (s : Core P R)
      → P.rows (end_one P R q id s).0.sessions ≡ (
          if q.session_ok
          then update_where (is_live id) (close_with terminated q.now) (P.rows s.sessions)
          else P.rows s.sessions)
  unfolding end_one
  end_one-rows q id s = elim (Bool-cases q.session_ok) [
    | inl o ↦ elim (Bool-cases q.event_ok) [
      | inl e ↦ rw (o, e, publish_inline-sessions) (P.rows-update_many _ _ s.sessions)
      | inr e ↦ rw (o, e) (P.rows-update_many _ _ s.sessions)
    ]
    | inr o ↦ rw o refl
  ]

  end_one-sessions :
      (q : EndRequest) (id : ℕ) (s : Core P R)
      → (end_one P R q id s).1 ≡ true
      → P.rows (end_one P R q id s).0.sessions
        ≡ update_where (is_live id) (close_with terminated q.now) (P.rows s.sessions)
  unfolding end_one
  end_one-sessions q id s h =
      let o : q.session_ok ≡ true = ground (arith, h) in end_one-rows q id s ∙ rw o refl

  end_one-Evolves :
      (q : EndRequest) (id : ℕ) (s : Core P R)
      → Evolves (P.rows s.sessions) (P.rows (end_one P R q id s).0.sessions)
  end_one-Evolves q id s = rw (end_one-rows q id s) (
      if_either (Evolves (P.rows s.sessions)) q.session_ok _ _
        (Evolves-close terminated id q.now (P.rows s.sessions) refl)
        (Evolves-refl (P.rows s.sessions)))

  end_one-IsDelivered :
      (q : EndRequest) (id : ℕ) (s : Core P R)
      → IsDelivered P R s
      → IsDelivered P R (end_one P R q id s).0
  unfolding end_one
  end_one-IsDelivered q id s h =
      let m = session_ended id ended_terminated in
      let with_event =
        create-AllDelivered P R s.kafka s.rabbit q.fresh_event q.now "SessionEndedEvent" m s.outbox
          h in
      elim (Bool-cases q.event_ok) [
        | inl e ↦ elim (Bool-cases q.session_ok) [
          | inl o ↦
              rw (e, o)
                (publish_inline-IsDelivered P R q.delivery "SessionEndedEvent" terminate_sandbox m _
                  with_event)
          | inr o ↦ rw (e, o) with_event
        ]
        | inr e ↦ elim (Bool-cases q.session_ok) [ inl o ↦ rw (e, o) h | inr o ↦ rw (e, o) h ]
      ]

-- Every active session of the user among the rows is still to be ended.
abbrev covers : String → List LabSession → LabSession → Bool
covers u todo r = not (active_of u r) || any (λ (x : LabSession). x.id == r.id) todo

abbrev Covers : String → List LabSession → List LabSession → Type 0
Covers u todo = All (λ r. covers u todo r ≡ true)

Covers-weaken :
    (u : String) (x : LabSession) (todo rs : List LabSession)
    → Covers u todo rs
    → Covers u (x ∷ todo) rs
Covers-weaken u x todo [] h = tt
Covers-weaken u x todo (r ∷ rs) h = (ground arith, Covers-weaken u x todo rs h.1)

Covers-where : (u : String) (rs : List LabSession) → Covers u (where_rows (active_of u) rs) rs
Covers-where u [] = tt
Covers-where u (r ∷ rs) = elim (Bool-cases (active_of u r)) [
  | inl e ↦
      let rest = where_rows (active_of u) rs in
      let taken : r ∷ rest ≡ where_rows (active_of u) (r ∷ rs) = rw e in
      subst (λ t. Covers u t (r ∷ rs)) taken
        (ground (arith, eq_self r.id), Covers-weaken u r rest rs (Covers-where u rs))
  | inr e ↦
      let rest = where_rows (active_of u) rs in
      let left : rest ≡ where_rows (active_of u) (r ∷ rs) = rw e in
      subst (λ t. Covers u t (r ∷ rs)) left (ground arith, Covers-where u rs)
]

Covers-close :
    (u : String) (now : ℕ) (x : LabSession) (todo rs : List LabSession)
    → Covers u (x ∷ todo) rs
    → Covers u todo (update_where (is_live x.id) (close_with terminated now) rs)
Covers-close u now x todo [] h = tt
Covers-close u now x todo (r ∷ rs) h = (ground arith, Covers-close u now x todo rs h.1)

count-Covers : (u : String) (rs : List LabSession) → Covers u [] rs → count (active_of u) rs ≡ 0
count-Covers u [] h = refl
count-Covers u (r ∷ rs) h = ground (arith, count-Covers u rs h.1)

module _ (P : Prisma) (R : Redis Key ℕ) (q : ℕ → EndRequest) where
  end_all-Covers :
      (u : String) (todo : List LabSession) (s : Core P R)
      → Covers u todo (P.rows s.sessions)
      → (end_all P R q todo s).1 ≡ true
      → Covers u [] (P.rows (end_all P R q todo s).0.sessions)
  unfolding end_all
  end_all-Covers u [] s h done = h
  end_all-Covers u (x ∷ todo) s h done = elim (Bool-cases (end_one P R (q x.id) x.id s).1) [
    | inl e ↦
        let s' = (end_one P R (q x.id) x.id s).0 in
        let next = Covers-close u (q x.id).now x todo (P.rows s.sessions) h in
        let here = subst (Covers u todo) (sym (end_one-sessions P R (q x.id) x.id s e)) next in
        rw e (end_all-Covers u todo s' here (rw e at done))
    | inr e ↦ absurd (ground (arith, e, done))
  ]

  end_all-ClosesOf :
      (u : String) (todo : List LabSession) (s : Core P R)
      → Owned u todo (P.rows s.sessions)
      → ClosesOf u (P.rows s.sessions) (P.rows (end_all P R q todo s).0.sessions)
  unfolding end_all
  end_all-ClosesOf u [] s own = ClosesOf-refl u (P.rows s.sessions)
  end_all-ClosesOf u (x ∷ todo) s own =
      let rows = P.rows s.sessions in
      let s' = (end_one P R (q x.id) x.id s).0 in
      let left = end_one-rows P R (q x.id) x.id s in
      let one = subst (ClosesOf u rows) (sym left) (
        if_either (ClosesOf u rows) (q x.id).session_ok _ _
          (ClosesOf-close u x (q x.id).now rows own.0) (ClosesOf-refl u rows)) in
      let own' = subst (Owned u todo) (sym left) (
        if_either (Owned u todo) (q x.id).session_ok _ _
          (Owned-close u todo x.id (q x.id).now rows own.1) own.1) in
      elim (Bool-cases (end_one P R (q x.id) x.id s).1) [
        | inl e ↦
            rw e
              (ClosesOf-trans u rows (P.rows s'.sessions) _ one (end_all-ClosesOf u todo s' own'))
        | inr e ↦ rw e one
      ]

  end_all-IsDelivered :
      (todo : List LabSession) (s : Core P R)
      → IsDelivered P R s
      → IsDelivered P R (end_all P R q todo s).0
  unfolding end_all
  end_all-IsDelivered [] s h = h
  end_all-IsDelivered (x ∷ todo) s h =
      let s' = (end_one P R (q x.id) x.id s).0 in
      let one = end_one-IsDelivered P R (q x.id) x.id s h in
      elim (Bool-cases (end_one P R (q x.id) x.id s).1) [
        | inl e ↦ rw e (end_all-IsDelivered todo s' one)
        | inr e ↦ rw e one
      ]

  -- If the identifiers of the sessions are unique, a DELETE /session/active that is answered
  -- leaves the user without an active session; answered or not, it closes active sessions of that
  -- user alone, leaves every other row as it is and in its place, adds none, and keeps the promise
  -- of the outbox.
  pub delete_active-ends :
      (u : String) (s : Core P R)
      → ((id : ℕ) → count (λ (r : LabSession). r.id == id) (P.rows s.sessions) ≤ 1)
      → let r = delete_active P R q u s in
        (r.1 ≡ true → count (active_of u) (P.rows r.0.sessions) ≡ 0)
        × ClosesOf u (P.rows s.sessions) (P.rows r.0.sessions)
        × (IsDelivered P R s → IsDelivered P R r.0)
  unfolding delete_active
  delete_active-ends u s single =
      let todo = P.find_many (active_of u) s.sessions in
      let all =
        subst (λ t. Covers u t (P.rows s.sessions)) (sym (P.find_many_lem (active_of u) s.sessions))
          (Covers-where u (P.rows s.sessions)) in
      let own =
        subst (λ t. Owned u t (P.rows s.sessions)) (sym (P.find_many_lem (active_of u) s.sessions))
          (Owned-where u (P.rows s.sessions) single) in
      (
        λ done. count-Covers u _ (end_all-Covers u todo s all done),
        end_all-ClosesOf u todo s own,
        end_all-IsDelivered todo s,
      )

module _ (P : Prisma) (R : Redis Key ℕ) where
  session_health-closed :
      (id : ℕ) (s : Core P R)
      → any (is_live id) (P.rows s.sessions) ≡ false
      → session_health P R id s ≡ false
  unfolding session_health
  session_health-closed id s h =
      elim (Option-cases (P.find_first (λ (r : LabSession). r.id == id) s.sessions)) [
        | inl e ↦ rw (e, session_health)
        | inr (r, e) ↦
            let found = P.find_first-some (λ (r : LabSession). r.id == id) s.sessions r e in
            rw (e, session_health) (ground (arith, h, found.0, found.1 (is_live id)))
      ]

  -- A DELETE /session/:id that is answered leaves the session not active, so that its health is
  -- "not alive"; answered or not, it only closes that session, and keeps the promise of the
  -- outbox.
  delete_session-ends :
      (q : EndRequest) (caller : String) (id : ℕ) (s : Core P R)
      → let r = delete_session P R q caller id s in
        (r.1 ≡ true → session_health P R id r.0 ≡ false)
        × Evolves (P.rows s.sessions) (P.rows r.0.sessions)
        × (IsDelivered P R s → IsDelivered P R r.0)
  unfolding delete_session
  delete_session-ends q caller id s = (
    λ done. session_health-closed id _ (
        rw (end_one-sessions P R q id s done)
          (close-ends terminated id q.now (P.rows s.sessions) refl)),
    end_one-Evolves P R q id s,
    end_one-IsDelivered P R q id s,
  )
