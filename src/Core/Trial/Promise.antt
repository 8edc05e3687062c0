-- ===== src/Core/Trial/Promise.antt =====
-- What a trial writes.
use devops_lab.Prelude.{
  ℕ, String, inl, inr, Bool-cases, Option-cases, nat_eq, string_eq, ◌==◌, ltb, is_some, if_either,
}
use devops_lab.Services.{Prisma, Redis}
use devops_lab.Core.Rows.{
  Key, User, Challenge, session_lock, trial_used, trial_ip, provision_sandbox,
}
use devops_lab.Core.State.{Core}
use devops_lab.Core.Delivered.{IsDelivered, publish_inline-IsDelivered, create-AllDelivered}
use devops_lab.Core.Trial.{
  TrialRequest, commit_trial, lock_trial, with_guest, counted, admit_trial, start_trial, guest_of,
  guest_user_id, trial_payload, trial_provider,
}

module _ (P : Prisma) (R : Redis Key ℕ) (q : TrialRequest) where
  commit_trial-IsDelivered :
      (guest : String) (c : Challenge) (s : Core P R)
      → IsDelivered P R s
      → IsDelivered P R (commit_trial P R q guest c s).0
  unfolding commit_trial
  commit_trial-IsDelivered guest c s h =
      let m = trial_payload q guest c in
      let with_event =
        create-AllDelivered P R s.kafka s.rabbit q.fresh_event q.now "SessionStartedEvent" m
          s.outbox h in
      elim (Bool-cases q.event_ok) [
        | inl e ↦ elim (Bool-cases q.session_ok) [
          | inl o ↦
              rw (e, o)
                (publish_inline-IsDelivered P R q.delivery "SessionStartedEvent"
                  (provision_sandbox (trial_provider c)) m _ with_event)
          | inr o ↦ rw (e, o) with_event
        ]
        | inr e ↦ elim (Bool-cases q.session_ok) [ inl o ↦ rw (e, o) h | inr o ↦ rw (e, o) h ]
      ]

  lock_trial-IsDelivered :
      (guest : String) (c : Challenge) (s : Core P R)
      → IsDelivered P R s
      → IsDelivered P R (lock_trial P R q guest c s).0
  unfolding lock_trial
  lock_trial-IsDelivered guest c s h =
      elim (Option-cases (R.get s.kv q.now (session_lock (guest_user_id guest) c.id))) [
        | inl e ↦ rw (e, lock_trial) (commit_trial-IsDelivered guest c _ h)
        | inr (v, e) ↦
            elim (Option-cases
              (R.get s.kv q.lock_read_at (session_lock (guest_user_id guest) c.id))) [
                | inl e' ↦ rw (e, e', lock_trial) (commit_trial-IsDelivered guest c s h)
                | inr (w, e') ↦ rw (e, e', lock_trial) h
              ]
      ]

  admit_trial-IsDelivered :
      (guest : String) (c : Challenge) (s : Core P R)
      → IsDelivered P R s
      → IsDelivered P R (admit_trial P R q guest c s).0
  unfolding admit_trial
  admit_trial-IsDelivered guest c s h =
      let ready = with_guest P R guest (counted P R q s) in
      let kept : IsDelivered P R ready =
        if_either (IsDelivered P R)
          (is_some (P.find_first (λ (u : User). u.id == guest_user_id guest) s.users)) _ _ h h in
      elim (Bool-cases (
        ltb 2
          (R.counter (R.incr s.kv q.now (trial_ip q.client_ip)) q.now (trial_ip q.client_ip)))) [
            | inl e ↦ rw (e, admit_trial) h
            | inr e ↦ rw (e, admit_trial) (lock_trial-IsDelivered guest c ready kept)
          ]

  -- Starting a trial keeps the promise of the outbox, whatever the branch, whichever of
  -- its two rows is written, and whatever the brokers answer.
  start_trial-IsDelivered :
      (s : Core P R) → IsDelivered P R s → IsDelivered P R (start_trial P R q s).0
  unfolding start_trial
  start_trial-IsDelivered s h =
      let guest = guest_of q.cookie q.fresh_guest in
      elim (Option-cases (P.find_first (λ (c : Challenge). c.id == q.challenge_id) s.challenges)) [
        | inl e ↦ rw (e, start_trial) h
        | inr (c, e) ↦ elim (Bool-cases c.guest_trial_eligible) [
          | inr n ↦ rw (e, n, start_trial) h
          | inl y ↦ elim (Bool-cases (is_some (R.get s.kv q.now (trial_used guest)))) [
            | inl u ↦ rw (e, y, u, start_trial) h
            | inr u ↦ rw (e, y, u, start_trial) (admit_trial-IsDelivered guest c s h)
          ]
        ]
      ]
