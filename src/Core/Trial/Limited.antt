-- ===== src/Core/Trial/Limited.antt =====
-- Which requests for a trial are granted.
use devops_lab.Prelude.{
  ℕ, ◌≤◌, ◌≡◌, true, false, Bool-cases, Option-cases, some, inl, inr, ltb, is_some, arith, nat_eq,
  ◌==◌, String,
}
use devops_lab.Services.{Prisma, Redis}
use devops_lab.Core.Rows.{Key, Challenge, trial_used, trial_ip}
use devops_lab.Core.State.{Core}
use devops_lab.Core.Trial.{TrialRequest, start_trial, admit_trial, guest_of}
use devops_lab.Core.Trial.Once.{is_trial_created}

module _ (P : Prisma) (R : Redis Key ℕ) (q : TrialRequest) where
  -- Why a request was granted: an eligible challenge, a trial that is not used, and at most one
  -- earlier launch that the counter of the address still counts.
  pub record Granted (s : Core P R) : Type 0 where
    pub challenge : Challenge
    pub found :
        P.find_first (λ (c : Challenge). c.id == q.challenge_id) s.challenges ≡ some challenge
    pub eligible : challenge.guest_trial_eligible ≡ true
    pub unused : is_some (R.get s.kv q.now (trial_used (guest_of q.cookie q.fresh_guest))) ≡ false
    pub within : R.counter s.kv q.now (trial_ip q.client_ip) ≤ 1

  admit_trial-within :
      (guest : String) (c : Challenge) (s : Core P R)
      → is_trial_created (admit_trial P R q guest c s).1 ≡ true
      → R.counter s.kv q.now (trial_ip q.client_ip) ≤ 1
  unfolding admit_trial
  admit_trial-within guest c s made =
      let key = trial_ip q.client_ip in
      let tries = R.counter (R.incr s.kv q.now key) q.now key in
      elim (Bool-cases (ltb 2 tries)) [
        | inl e ↦ absurd (ground (arith, rw (e, admit_trial) at made))
        | inr e ↦ ground (arith, e, R.counter-incr_self s.kv q.now key)
      ]

  -- A trial is answered with 201 only for a challenge that exists and is eligible, to a guest
  -- whose trial is not used, and from an address of which at most one earlier launch is still
  -- counted.
  pub start_trial-Granted :
      (s : Core P R) → is_trial_created (start_trial P R q s).1 ≡ true → Granted s
  unfolding start_trial
  start_trial-Granted s made =
      let guest = guest_of q.cookie q.fresh_guest in
      elim (Option-cases (P.find_first (λ (c : Challenge). c.id == q.challenge_id) s.challenges)) [
        | inl e ↦ absurd (ground (arith, rw (e, start_trial) at made))
        | inr (c, e) ↦ elim (Bool-cases c.guest_trial_eligible) [
          | inr n ↦ absurd (ground (arith, rw (e, n, start_trial) at made))
          | inl y ↦ elim (Bool-cases (is_some (R.get s.kv q.now (trial_used guest)))) [
            | inl u ↦ absurd (ground (arith, rw (e, y, u, start_trial) at made))
            | inr u ↦ record {
              challenge = c;
              found = e;
              eligible = y;
              unused = u;
              within = admit_trial-within guest c s (rw (e, y, u, start_trial) at made);
            }
          ]
        ]
      ]
