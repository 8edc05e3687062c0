-- ===== src/Core/Poller/Backoff.antt =====
-- The circuit breaker of the poller.
use devops_lab.Prelude.{
  ℕ, ◌+◌, ◌≤◌, ◌<◌, ◌≡◌, Bool, List, [], ◌∷◌, arith, inl, inr, Bool-cases, ltb, take,
}
use devops_lab.Services.{Prisma, Redis}
use devops_lab.Core.Rows.{OutboxEvent, Key}
use devops_lab.Core.State.{Core}
use devops_lab.Core.Poller.{
  Breaker, Attempt, trip, deliver_one, deliver_all, poll, is_pending, batch_size,
}

-- The backoff lies between five seconds and a minute.
pub record IsSteady (b : Breaker) : Type 0 where
  pub at_least : 5000 ≤ b.backoff_ms
  pub at_most : b.backoff_ms ≤ 60000

module _ (P : Prisma) (R : Redis Key ℕ) where
  deliver_one-IsSteady :
      (a : Attempt) (e : OutboxEvent) (s : Core P R) (b : Breaker)
      → IsSteady b
      → IsSteady (deliver_one P R a e s b).1
  unfolding deliver_one
  deliver_one-IsSteady a e s b h = ground arith

  deliver_all-IsSteady :
      (a : OutboxEvent → Attempt) (es : List OutboxEvent) (s : Core P R) (b : Breaker)
      → IsSteady b
      → IsSteady (deliver_all P R a es s b).1
  unfolding deliver_all
  deliver_all-IsSteady a [] s b h = h
  deliver_all-IsSteady a (e ∷ es) s b h =
      let r = deliver_one P R (a e) e s b in
      let one = deliver_one-IsSteady (a e) e s b h in
      elim (Bool-cases (deliver_one P R (a e) e s b).2) [
        | inl go ↦ rw go (deliver_all-IsSteady a es r.0 r.1 one)
        | inr stop ↦ rw stop one
      ]

  -- A cycle keeps the backoff between five seconds and a minute. While the circuit is open, a
  -- cycle changes nothing at all.
  poll-IsSteady :
      (a : OutboxEvent → Attempt) (now : ℕ) (ready : Bool) (s : Core P R) (b : Breaker)
      → (IsSteady b → IsSteady (poll P R a now ready s b).1)
        × (now < b.circuit_open_until → poll P R a now ready s b ≡ (s, b))
  unfolding poll
  poll-IsSteady a now ready s b = (
    λ h. elim (Bool-cases (ltb now b.circuit_open_until)) [
      | inl o ↦ rw o h
      | inr c ↦ elim (Bool-cases ready) [
        | inl r ↦
            rw (c, r)
              (deliver_all-IsSteady a (take batch_size (P.find_many is_pending s.outbox)) s b h)
        | inr r ↦ rw (c, r) h
      ]
    ],
    λ h. ground arith,
  )

-- Three failures in a row open the circuit, from any state of the counter, for at least five
-- seconds and at most a minute from the third failure.
three_failures_open :
    (t₁ t₂ t₃ : ℕ) (b : Breaker)
    → IsSteady b
    → let b' = trip t₃ (trip t₂ (trip t₁ b)) in
      (3 ≤ b'.consecutive_failures)
      × (t₃ + 5000 ≤ b'.circuit_open_until)
      × (b'.circuit_open_until ≤ t₃ + 60000)
unfolding trip
three_failures_open t₁ t₂ t₃ b h = ground arith
