-- ===== src/Core/Poller/Retries.antt =====
-- services/core/src/plugins/outbox-poller.ts: the retry counter of an event under a cycle.
use devops_lab.Prelude.{
  ℕ, ◌≤◌, ◌<◌, ◌≡◌, Bool, ◌&&◌, List, [], ◌∷◌, arith, inl, inr, Bool-cases, ltb, leb, take, All,
  All-take, update_where, where_rows, subst, sym,
}
use devops_lab.Services.{Prisma, Redis}
use devops_lab.Core.Rows.{OutboxEvent, Key}
use devops_lab.Core.State.{Core, mark_processed}
use devops_lab.Core.Poller.{
  Breaker, Attempt, send, deliver_one, deliver_all, poll, is_pending, batch_size, same_id,
  record_failure,
}

-- At most five attempts have failed, and the event is marked as failed just at five.
pub record IsCounted (e : OutboxEvent) : Type 0 where
  pub at_most : e.retry_count ≤ 5
  pub poison : e.failed ≡ leb 5 e.retry_count

abbrev pub AllCounted : List OutboxEvent → Type 0
AllCounted = All IsCounted

AllCounted-done :
    (e : OutboxEvent) (es : List OutboxEvent)
    → AllCounted es
    → AllCounted (update_where (same_id e) mark_processed es)
AllCounted-done e [] h = tt
AllCounted-done e (x ∷ es) h = (ground arith, AllCounted-done e es h.1)

AllCounted-retry :
    (e : OutboxEvent) (es : List OutboxEvent)
    → e.retry_count < 5
    → AllCounted es
    → AllCounted (update_where (same_id e) (record_failure e) es)
AllCounted-retry e [] lt h = tt
AllCounted-retry e (x ∷ es) lt h = (ground arith, AllCounted-retry e es lt h.1)

-- The events of the batch have attempts left.
abbrev HasRoom : List OutboxEvent → Type 0
HasRoom = All (λ (e : OutboxEvent). e.retry_count < 5)

HasRoom-pending : (es : List OutboxEvent) → AllCounted es → HasRoom (where_rows is_pending es)
HasRoom-pending [] h = tt
HasRoom-pending (e ∷ es) h = elim (Bool-cases (is_pending e)) [
  | inl p ↦ rw p (ground (arith, h.0.at_most, h.0.poison), HasRoom-pending es h.1)
  | inr p ↦ rw p (HasRoom-pending es h.1)
]

module _ (P : Prisma) (R : Redis Key ℕ) where
  pub send-outbox :
      (a : Attempt) (e : OutboxEvent) (s : Core P R) → (send P R a e s).0.outbox ≡ s.outbox
  unfolding send
  send-outbox a e s = ground arith

  deliver_one-AllCounted :
      (a : Attempt) (e : OutboxEvent) (s : Core P R) (b : Breaker)
      → e.retry_count < 5
      → AllCounted (P.rows s.outbox)
      → AllCounted (P.rows (deliver_one P R a e s b).0.outbox)
  unfolding deliver_one
  deliver_one-AllCounted a e s b lt h = elim (Bool-cases ((send P R a e s).1 && a.mark_ok)) [
    | inl ok ↦ rw (ok, send-outbox, P.rows-update_many) (AllCounted-done e (P.rows s.outbox) h)
    | inr bad ↦ elim (Bool-cases a.retry_ok) [
      | inl r ↦
          rw (bad, r, send-outbox, P.rows-update_many) (AllCounted-retry e (P.rows s.outbox) lt h)
      | inr r ↦ rw (bad, r, send-outbox) h
    ]
  ]

  deliver_all-AllCounted :
      (a : OutboxEvent → Attempt) (es : List OutboxEvent) (s : Core P R) (b : Breaker)
      → HasRoom es
      → AllCounted (P.rows s.outbox)
      → AllCounted (P.rows (deliver_all P R a es s b).0.outbox)
  unfolding deliver_all
  deliver_all-AllCounted a [] s b room h = h
  deliver_all-AllCounted a (e ∷ es) s b room h =
      let r = deliver_one P R (a e) e s b in
      let one = deliver_one-AllCounted (a e) e s b room.0 h in
      elim (Bool-cases (deliver_one P R (a e) e s b).2) [
        | inl go ↦ rw go (deliver_all-AllCounted a es r.0 r.1 room.1 one)
        | inr stop ↦ rw stop one
      ]

  -- Whatever the brokers answer, a cycle counts at most five failed attempts of an event, and
  -- marks it as failed just when it counts the fifth.
  pub poll-AllCounted :
      (a : OutboxEvent → Attempt) (now : ℕ) (ready : Bool) (s : Core P R) (b : Breaker)
      → AllCounted (P.rows s.outbox)
      → AllCounted (P.rows (poll P R a now ready s b).0.outbox)
  unfolding poll
  poll-AllCounted a now ready s b h = elim (Bool-cases (ltb now b.circuit_open_until)) [
    | inl o ↦ rw o h
    | inr c ↦ elim (Bool-cases ready) [
      | inl r ↦
          let pending =
            subst HasRoom (sym (P.find_many_lem is_pending s.outbox))
              (HasRoom-pending (P.rows s.outbox) h) in
          let batch = take batch_size (P.find_many is_pending s.outbox) in
          rw (c, r)
            (deliver_all-AllCounted a batch s b
              (All-take (λ (e : OutboxEvent). e.retry_count < 5) batch_size _ pending) h)
      | inr r ↦ rw (c, r) h
    ]
  ]
