-- ===== src/Core/Start/Limits.antt =====
-- POST /challenges/:id/start: the reply against the plan's limit, the outbox and the sessions.
use devops_lab.Prelude.{
  ℕ, ◌≤◌, ◌≡◌, refl, true, false, Option, none, some, inl, inr, Bool-cases, Option-cases, arith,
  nat_eq, string_eq, ◌==◌, leb, count, sym, subst,
}
use devops_lab.Services.{Prisma, Redis}
use devops_lab.Core.Rows.{Key, User, Challenge, LabSession}
use devops_lab.Core.State.{Core}
use devops_lab.Core.Probe.{Probe, probe_session}
use devops_lab.Core.Start.{
  StartRequest, StartReply, created, failed, tier_of, limit_session, reuse_session, start_challenge,
  active_of, active_for, plan_limit, org_mismatch, org_of, start_payload, end_session,
}
use devops_lab.Core.Start.Outcome.{
  Refused, Refused-self, Failed, lock_session-Outcome, count-end, recorded, is_refused,
}

module _ (P : Prisma) (R : Redis Key ℕ) (q : StartRequest) where
  -- A session that was opened: it has the fresh identifier, the caller has no more active sessions
  -- than the plan allows, and the event is in the outbox.
  pub record Started (c : Challenge) (user : Option User) (s s' : Core P R) (id : ℕ) : Type 0 where
    pub fresh : id ≡ q.fresh_session
    pub within : count (active_of q.user_id) (P.rows s'.sessions) ≤ plan_limit (tier_of P R s user)
    pub event : recorded (start_payload q c) (P.rows s'.outbox) ≡ true

  abbrev pub StartOutcome : Challenge → Option User → Core P R → Core P R → StartReply → Type 0
  StartOutcome c user s s' reply =
      ((id : ℕ) → reply ≡ created id → Started c user s s' id)
      × (is_refused reply ≡ true → Refused P R q s s')
      × (reply ≡ failed → Failed P R q c s s')

  limit_session-Outcome :
      (c : Challenge) (user : Option User) (s : Core P R)
      → let r = limit_session P R q c user s in StartOutcome c user s r.0 r.1
  unfolding limit_session
  limit_session-Outcome c user s =
      let limit = plan_limit (tier_of P R s user) in
      elim (Bool-cases (leb limit (P.count_rows (active_of q.user_id) s.sessions))) [
        | inl e ↦ rw (e, limit_session) (λ id h. cc, λ h. Refused-self P R q s, λ h. cc)
        | inr e ↦
            let o = lock_session-Outcome P R q c s in
            let counted = P.count_rows_lem (active_of q.user_id) s.sessions in
            rw (e, limit_session)
              (
                λ id h. record {
                  fresh = (o.0 id h).fresh;
                  within = ground (arith, e, counted, (o.0 id h).one_more);
                  event = (o.0 id h).event;
                },
                o.1,
                o.2,
              )
      ]

  tier_of-sessions :
      (s : Core P R) (t : P.Table LabSession) (user : Option User)
      → tier_of P R (record s { sessions = t }) user ≡ tier_of P R s user
  unfolding tier_of
  tier_of-sessions s t none = refl
  tier_of-sessions s t (some u) = refl

  ended-fewer :
      (s : Core P R) (id : ℕ)
      → count
          (active_of q.user_id)
          (P.rows (P.update_many (λ (r : LabSession). r.id == id) (end_session q.later) s.sessions))
        ≤ count (active_of q.user_id) (P.rows s.sessions)
  ended-fewer s id =
      subst (λ rs. count (active_of q.user_id) rs ≤ count (active_of q.user_id) (P.rows s.sessions))
        (sym (P.rows-update_many (λ (r : LabSession). r.id == id) (end_session q.later) s.sessions))
        (count-end q.user_id id q.later (P.rows s.sessions))

  -- A failed start after some sessions have ended is one from the state before.
  Failed-after :
      (c : Challenge) (s : Core P R) (t : P.Table LabSession) (s' : Core P R)
      → count (active_of q.user_id) (P.rows t) ≤ count (active_of q.user_id) (P.rows s.sessions)
      → Failed P R q c (record s { sessions = t }) s'
      → Failed P R q c s s'
  Failed-after c s t s' fewer h = record {
    kafka_same = h.kafka_same;
    rabbit_same = h.rabbit_same;
    one_row = elim h.one_row [
      | inl o ↦ inl (o.0, omega (arith, o.1, fewer))
      | inr o ↦ inr (o.0, omega (arith, o.1, fewer))
    ];
  }

  reuse_session-Outcome :
      (c : Challenge) (user : Option User) (s : Core P R) (p : Probe)
      → let r = reuse_session P R q c user s p in StartOutcome c user s r.0 r.2
  unfolding reuse_session
  reuse_session-Outcome c user s p =
      elim (Option-cases (P.find_first (active_for q.user_id c.id) s.sessions)) [
        | inl e ↦ rw (e, reuse_session) (limit_session-Outcome c user s)
        | inr (old, e) ↦ elim (Bool-cases (probe_session q.now q.later q.response p).1) [
          | inl a ↦ rw (e, a, reuse_session) (λ id h. cc, λ h. Refused-self P R q s, λ h. cc)
          | inr a ↦
              let ended = record s {
                sessions =
                    P.update_many (λ (r : LabSession). r.id == old.id) (end_session q.later)
                      s.sessions;
              } in
              let o = limit_session-Outcome c user ended in
              let fewer = ended-fewer s old.id in
              rw (e, a, reuse_session)
                (
                  λ id h. record {
                    fresh = (o.0 id h).fresh;
                    within = rw (tier_of-sessions s ended.sessions user) at ((o.0 id h).within);
                    event = (o.0 id h).event;
                  },
                  λ h. record {
                    outbox_same = (o.1 h).outbox_same;
                    kafka_same = (o.1 h).kafka_same;
                    rabbit_same = (o.1 h).rabbit_same;
                    no_more = omega (arith, (o.1 h).no_more, fewer);
                  },
                  λ h. Failed-after c s ended.sessions _ fewer (o.2 h),
                )
        ]
      ]

  -- Starting a challenge: a reply of 201 carries the fresh identifier, leaves the caller with no
  -- more active sessions than the plan allows, and has the session's event in the outbox, for a
  -- challenge that exists and that the caller's organisation may use. A reply of 500 sends nothing
  -- and leaves at most one of the two rows, for a challenge that exists: one active session more
  -- and no event, or the event and no session more. Every other reply writes nothing to the
  -- outbox, sends nothing, and opens no session.
  pub start_challenge-Outcome :
      (s : Core P R) (p : Probe)
      → let r = start_challenge P R q s p in
        let user = P.find_first (λ (u : User). u.id == q.user_id) s.users in
        ((id : ℕ)
          → r.2 ≡ created id
          → (c : Challenge) × (P.find_first (λ (c : Challenge). c.id == q.challenge_id) s.challenges
              ≡ some c)
            × (org_mismatch c.contributed_by_org_id (org_of user) ≡ false)
            × Started c user s r.0 id)
        × (is_refused r.2 ≡ true → Refused P R q s r.0)
        × (r.2 ≡ failed
            → (c : Challenge) × (P.find_first
                  (λ (c : Challenge). c.id == q.challenge_id)
                  s.challenges
                ≡ some c)
              × Failed P R q c s r.0)
  unfolding start_challenge
  start_challenge-Outcome s p =
      elim (Option-cases (P.find_first (λ (c : Challenge). c.id == q.challenge_id) s.challenges)) [
        | inl e ↦ rw (e, start_challenge) (λ id h. cc, λ h. Refused-self P R q s, λ h. cc)
        | inr (c, e) ↦
            let user = P.find_first (λ (u : User). u.id == q.user_id) s.users in
            let o = reuse_session-Outcome c user s p in
            elim (Bool-cases (org_mismatch c.contributed_by_org_id (org_of user))) [
              | inl m ↦ rw (e, m, start_challenge) (λ id h. cc, λ h. Refused-self P R q s, λ h. cc)
              | inr m ↦
                  rw (e, m, start_challenge)
                    (λ id h. (c, refl, m, o.0 id h), o.1, λ h. (c, refl, o.2 h))
            ]
      ]
