-- ===== src/Core/Trial/Once.antt =====
-- POST /challenges/:id/trial: the mark that a guest's trial is used, and later requests.
use devops_lab.Prelude.{
  ℕ, ◌≡◌, ◌+◌, ◌*◌, ◌≤◌, ◌<◌, refl, Bool, true, false, String, ◌&&◌, inl, inr, Bool-cases,
  Option-cases, nat_eq, string_eq, ◌==◌, ltb, is_some, arith,
}
use devops_lab.Services.{Prisma, Redis}
use devops_lab.Core.Rows.{Key, Challenge, Queue, Message, session_lock, trial_used, trial_ip}
use devops_lab.Core.State.{Core, Delivery, publish_inline}
use devops_lab.Core.Trial.{
  TrialRequest, TrialReply, trial_created, commit_trial, lock_trial, with_guest, counted,
  admit_trial, start_trial, guest_of, guest_user_id, trial_retention_seconds,
}

abbrev pub is_trial_created : TrialReply → Bool
is_trial_created (trial_created _) = true
is_trial_created _ = false

module _ (P : Prisma) (R : Redis Key ℕ) where
  publish_inline-kv :
      (d : Delivery) (type : String) (k : Queue) (m : Message) (s : Core P R)
      → (publish_inline P R d type k m s).kv ≡ s.kv
  unfolding publish_inline
  publish_inline-kv d type k m s = ground arith

  module _ (q : TrialRequest) (later : ℕ) where
    abbrev IsUsed : String → Core P R → Type 0
    IsUsed guest s = is_some (R.get s.kv later (trial_used guest)) ≡ true

    commit_trial-IsUsed :
        (guest : String) (c : Challenge) (s : Core P R)
        → q.now ≤ later
        → later < q.now + trial_retention_seconds * 1000
        → is_trial_created (commit_trial P R q guest c s).1 ≡ true
        → IsUsed guest (commit_trial P R q guest c s).0
    unfolding commit_trial
    commit_trial-IsUsed guest c s le lt made = elim (Bool-cases (q.session_ok && q.event_ok)) [
      | inl e ↦
          let fresh : ltb later (q.now + trial_retention_seconds * 1000) ≡ true =
            ground (arith, lt) in
          let stored =
            R.get-set_ex_self s.kv q.now later (trial_used guest) q.fresh_session
              trial_retention_seconds le in
          rw (e, publish_inline-kv, stored, fresh) refl
      | inr e ↦ absurd (ground (arith, made, e))
    ]

    lock_trial-IsUsed :
        (guest : String) (c : Challenge) (s : Core P R)
        → q.now ≤ later
        → later < q.now + trial_retention_seconds * 1000
        → is_trial_created (lock_trial P R q guest c s).1 ≡ true
        → IsUsed guest (lock_trial P R q guest c s).0
    unfolding lock_trial
    lock_trial-IsUsed guest c s le lt made =
        let key = session_lock (guest_user_id guest) c.id in
        elim (Option-cases (R.get s.kv q.now key)) [
          | inl e ↦
              let locked = record s { kv = R.set_ex s.kv q.now key q.fresh_session 10 } in
              rw (e, lock_trial)
                (commit_trial-IsUsed guest c locked le lt (rw (e, lock_trial) at made))
          | inr (v, e) ↦ elim (Option-cases (R.get s.kv q.lock_read_at key)) [
            | inl e' ↦
                rw (e, e', lock_trial)
                  (commit_trial-IsUsed guest c s le lt (rw (e, e', lock_trial) at made))
            | inr (w, e') ↦ absurd (ground (arith, rw (e, e', lock_trial) at made))
          ]
        ]

    admit_trial-IsUsed :
        (guest : String) (c : Challenge) (s : Core P R)
        → q.now ≤ later
        → later < q.now + trial_retention_seconds * 1000
        → is_trial_created (admit_trial P R q guest c s).1 ≡ true
        → IsUsed guest (admit_trial P R q guest c s).0
    unfolding admit_trial
    admit_trial-IsUsed guest c s le lt made =
        let tries =
          R.counter (R.incr s.kv q.now (trial_ip q.client_ip)) q.now (trial_ip q.client_ip) in
        elim (Bool-cases (ltb 2 tries)) [
          | inl e ↦ absurd (ground (arith, rw (e, admit_trial) at made))
          | inr e ↦
              rw (e, admit_trial)
                (lock_trial-IsUsed guest c (with_guest P R guest (counted P R q s)) le lt
                  (rw (e, admit_trial) at made))
        ]

    start_trial-IsUsed :
        (guest : String) (s : Core P R)
        → guest_of q.cookie q.fresh_guest ≡ guest
        → q.now ≤ later
        → later < q.now + trial_retention_seconds * 1000
        → is_trial_created (start_trial P R q s).1 ≡ true
        → IsUsed guest (start_trial P R q s).0
    unfolding start_trial
    start_trial-IsUsed guest s g le lt made =
        elim (Option-cases
          (P.find_first (λ (c : Challenge). c.id == q.challenge_id) s.challenges)) [
            | inl e ↦ absurd (ground (arith, rw (e, start_trial) at made))
            | inr (c, e) ↦ elim (Bool-cases c.guest_trial_eligible) [
              | inr n ↦ absurd (ground (arith, rw (e, n, start_trial) at made))
              | inl y ↦ elim (Bool-cases (is_some (R.get s.kv q.now (trial_used guest)))) [
                | inl u ↦ absurd (ground (arith, rw (e, y, g, u, start_trial) at made))
                | inr u ↦
                    rw (e, y, g, u, start_trial)
                      (admit_trial-IsUsed guest c s le lt (rw (e, y, g, u, start_trial) at made))
              ]
            ]
          ]

  -- A request of a guest whose trial is used.
  start_trial-used :
      (q : TrialRequest) (guest : String) (s : Core P R)
      → guest_of q.cookie q.fresh_guest ≡ guest
      → is_some (R.get s.kv q.now (trial_used guest)) ≡ true
      → ((start_trial P R q s).0 ≡ s) × (is_trial_created (start_trial P R q s).1 ≡ false)
  unfolding start_trial
  start_trial-used q guest s g u =
      elim (Option-cases (P.find_first (λ (c : Challenge). c.id == q.challenge_id) s.challenges)) [
        | inl e ↦ rw (e, start_trial) (refl, refl)
        | inr (c, e) ↦ elim (Bool-cases c.guest_trial_eligible) [
          | inr n ↦ rw (e, n, start_trial) (refl, refl)
          | inl y ↦ rw (e, y, g, u, start_trial) (refl, refl)
        ]
      ]

  -- A guest has one trial in thirty days: after a request that was answered with 201, a later
  -- request with the same guest within thirty days changes nothing and is not answered with 201.
  pub start_trial-once :
      (q q' : TrialRequest) (s : Core P R)
      → guest_of q'.cookie q'.fresh_guest ≡ guest_of q.cookie q.fresh_guest
      → q.now ≤ q'.now
      → q'.now < q.now + 30 * 24 * 60 * 60 * 1000
      → is_trial_created (start_trial P R q s).1 ≡ true
      → let s' = (start_trial P R q s).0 in
        ((start_trial P R q' s').0 ≡ s') × (is_trial_created (start_trial P R q' s').1 ≡ false)
  start_trial-once q q' s same le lt made =
      let guest = guest_of q.cookie q.fresh_guest in
      start_trial-used q' guest (start_trial P R q s).0 same
        (start_trial-IsUsed q q'.now guest s refl le lt made)
