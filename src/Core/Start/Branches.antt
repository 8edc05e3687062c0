-- ===== src/Core/Start/Branches.antt =====
-- POST /challenges/:id/start: the outbox and the brokers on every branch.
use devops_lab.Prelude.{ℕ, Option, inl, inr, Bool-cases, Option-cases, nat_eq, string_eq, ◌==◌, leb}
use devops_lab.Services.{Prisma, Redis}
use devops_lab.Core.Rows.{Key, User, Challenge, session_lock, provision_sandbox}
use devops_lab.Core.State.{Core}
use devops_lab.Core.Delivered.{IsDelivered, publish_inline-IsDelivered, create-AllDelivered}
use devops_lab.Core.Probe.{Probe, probe_session}
use devops_lab.Core.Start.{
  StartRequest, tier_of, commit_session, lock_session, limit_session, reuse_session,
  start_challenge, active_of, active_for, plan_limit, org_mismatch, org_of, start_payload,
}

module _ (P : Prisma) (R : Redis Key ℕ) (q : StartRequest) where
  commit_session-IsDelivered :
      (c : Challenge) (s : Core P R)
      → IsDelivered P R s
      → IsDelivered P R (commit_session P R q c s).0
  unfolding commit_session
  commit_session-IsDelivered c s h =
      let with_event =
        create-AllDelivered P R s.kafka s.rabbit q.fresh_event q.now "SessionStartedEvent"
          (start_payload q c) s.outbox h in
      elim (Bool-cases q.event_ok) [
        | inl e ↦ elim (Bool-cases q.session_ok) [
          | inl o ↦
              rw (e, o)
                (publish_inline-IsDelivered P R q.delivery "SessionStartedEvent"
                  (provision_sandbox c.required_provider) (start_payload q c) _ with_event)
          | inr o ↦ rw (e, o) with_event
        ]
        | inr e ↦ elim (Bool-cases q.session_ok) [ inl o ↦ rw (e, o) h | inr o ↦ rw (e, o) h ]
      ]

  lock_session-IsDelivered :
      (c : Challenge) (s : Core P R)
      → IsDelivered P R s
      → IsDelivered P R (lock_session P R q c s).0
  unfolding lock_session
  lock_session-IsDelivered c s h =
      elim (Option-cases (R.get s.kv q.now (session_lock q.user_id c.id))) [
        | inl e ↦ rw (e, lock_session) (commit_session-IsDelivered c _ h)
        | inr (v, e) ↦
            elim (Option-cases (R.get s.kv q.lock_read_at (session_lock q.user_id c.id))) [
              | inl e' ↦ rw (e, e', lock_session) (commit_session-IsDelivered c s h)
              | inr (w, e') ↦ rw (e, e', lock_session) h
            ]
      ]

  limit_session-IsDelivered :
      (c : Challenge) (user : Option User) (s : Core P R)
      → IsDelivered P R s
      → IsDelivered P R (limit_session P R q c user s).0
  unfolding limit_session
  limit_session-IsDelivered c user s h =
      elim (Bool-cases
        (leb (plan_limit (tier_of P R s user)) (P.count_rows (active_of q.user_id) s.sessions))) [
          | inl e ↦ rw (e, limit_session) h
          | inr e ↦ rw (e, limit_session) (lock_session-IsDelivered c s h)
        ]

  reuse_session-IsDelivered :
      (c : Challenge) (user : Option User) (s : Core P R) (p : Probe)
      → IsDelivered P R s
      → IsDelivered P R (reuse_session P R q c user s p).0
  unfolding reuse_session
  reuse_session-IsDelivered c user s p h =
      elim (Option-cases (P.find_first (active_for q.user_id c.id) s.sessions)) [
        | inl e ↦ rw (e, reuse_session) (limit_session-IsDelivered c user s h)
        | inr (old, e) ↦ elim (Bool-cases (probe_session q.now q.later q.response p).1) [
          | inl a ↦ rw (e, a, reuse_session) h
          | inr a ↦ rw (e, a, reuse_session) (limit_session-IsDelivered c user _ h)
        ]
      ]

  -- Starting a challenge keeps the promise of the outbox, whatever the branch, whichever of its
  -- two rows is written, and whatever the brokers answer: no event of a session is marked as
  -- processed unless both brokers have been sent it.
  pub start_challenge-IsDelivered :
      (s : Core P R) (p : Probe) → IsDelivered P R s → IsDelivered P R (start_challenge P R q s p).0
  unfolding start_challenge
  start_challenge-IsDelivered s p h =
      elim (Option-cases (P.find_first (λ (c : Challenge). c.id == q.challenge_id) s.challenges)) [
        | inl e ↦ rw (e, start_challenge) h
        | inr (c, e) ↦
            let user = P.find_first (λ (u : User). u.id == q.user_id) s.users in
            elim (Bool-cases (org_mismatch c.contributed_by_org_id (org_of user))) [
              | inl m ↦ rw (e, m, start_challenge) h
              | inr m ↦ rw (e, m, start_challenge) (reuse_session-IsDelivered c user s p h)
            ]
      ]
