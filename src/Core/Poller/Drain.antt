-- ===== src/Core/Poller/Drain.antt =====
-- services/core/src/plugins/outbox-poller.ts: the cycles of the interval, one after the other, with
-- brokers that answer.
use devops_lab.Prelude.{
  ℕ, ◌≡◌, ◌≤◌, ◌*◌, ◌-◌, refl, sym, ap, ◌∙◌, Bool, true, false, List, [], ◌∷◌, arith, ltb, take,
  length, All, update_where, where_rows, subst, nat_eq,
}
use devops_lab.Services.{Prisma, Redis}
use devops_lab.Core.Rows.{OutboxEvent, Key}
use devops_lab.Core.State.{Core, mark_processed}
use devops_lab.Core.Poller.{
  Breaker, Attempt, acked, send, deliver_one, deliver_all, poll, is_pending, batch_size, same_id,
}
use devops_lab.Core.Poller.Retries.{send-outbox}
use devops_lab.Core.Poller.Batches.{
  mark_all, backlog, batch-backlog, length-take-where, none_pending,
}

pub record Cycle : Type 0 where
  pub attempts : OutboxEvent → Attempt
  pub now : ℕ
  pub ready : Bool

-- The brokers acknowledge, and the update succeeds.
abbrev pub IsHealthy : Attempt → Type 0
IsHealthy a = (a.kafka ≡ acked) × (a.rabbit ≡ acked) × (a.mark_ok ≡ true)

module _ (P : Prisma) (R : Redis Key ℕ) where
  -- The cycles of the interval.
  unfoldable pub cycles : List Cycle → Core P R → Breaker → Core P R × Breaker
  unfolding poll
  cycles [] s b = (s, b)
  cycles (c ∷ cs) s b = let (s', b') = poll P R c.attempts c.now c.ready s b in cycles cs s' b'

  send-healthy :
      (a : Attempt) (e : OutboxEvent) (s : Core P R) → IsHealthy a → (send P R a e s).1 ≡ true
  unfolding send
  send-healthy a e s h = ground (arith, h)

  deliver_one-healthy :
      (a : Attempt) (e : OutboxEvent) (s : Core P R) (b : Breaker)
      → IsHealthy a
      → let r = deliver_one P R a e s b in
        (P.rows r.0.outbox ≡ update_where (same_id e) mark_processed (P.rows s.outbox))
        × (r.1.circuit_open_until ≡ b.circuit_open_until)
        × (r.2 ≡ true)
  unfolding deliver_one
  deliver_one-healthy a e s b h =
      let returned = send-healthy a e s h in
      rw (returned, h.2, send-outbox, P.rows-update_many) (refl, refl, refl)

  deliver_all-healthy :
      (a : OutboxEvent → Attempt) (es : List OutboxEvent) (s : Core P R) (b : Breaker)
      → ((e : OutboxEvent) → IsHealthy (a e))
      → let r = deliver_all P R a es s b in
        (P.rows r.0.outbox ≡ mark_all es (P.rows s.outbox))
        × (r.1.circuit_open_until ≡ b.circuit_open_until)
  unfolding deliver_all
  deliver_all-healthy a [] s b h = (refl, refl)
  deliver_all-healthy a (e ∷ es) s b h =
      let one = deliver_one-healthy (a e) e s b (h e) in
      let r = deliver_one P R (a e) e s b in
      let rest = deliver_all-healthy a es r.0 r.1 h in
      rw one.2 (rest.0 ∙ ap (mark_all es) one.0, rest.1 ∙ one.1)

  -- A cycle that can work: the circuit is closed, and the brokers are healthy.
  abbrev pub IsWorking : ℕ → Cycle → Type 0
  IsWorking open_until c =
      (open_until ≤ c.now) × (c.ready ≡ true) × ((e : OutboxEvent) → IsHealthy (c.attempts e))

  poll-backlog :
      (c : Cycle) (s : Core P R) (b : Breaker)
      → IsWorking b.circuit_open_until c
      → let r = poll P R c.attempts c.now c.ready s b in
        (backlog (P.rows r.0.outbox) ≤ backlog (P.rows s.outbox) - 10)
        × (r.1.circuit_open_until ≡ b.circuit_open_until)
  unfolding poll
  poll-backlog c s b h =
      let closed : ltb c.now b.circuit_open_until ≡ false = ground (arith, h.0) in
      let rows = P.rows s.outbox in
      let batch = take batch_size (P.find_many is_pending s.outbox) in
      let done = deliver_all-healthy c.attempts batch s b h.2 in
      let same : batch ≡ take batch_size (where_rows is_pending rows) =
        ap (take batch_size) (P.find_many_lem is_pending s.outbox) in
      let moved = ap backlog (done.0 ∙ ap (λ es. mark_all es rows) same) in
      rw (closed, h.1)
        (
          omega (arith, moved, batch-backlog batch_size rows, length-take-where batch_size rows),
          done.1,
        )

  -- While the producer is ready, the circuit is closed at every cycle, both brokers acknowledge
  -- and the updates succeed, a series of cycles leaves no event pending, if it has at least one
  -- cycle for every ten pending events.
  pub cycles-backlog :
      (cs : List Cycle) (s : Core P R) (b : Breaker)
      → All (IsWorking b.circuit_open_until) cs
      → backlog (P.rows s.outbox) ≤ 10 * length cs
      → P.find_many is_pending (cycles cs s b).0.outbox ≡ []
  unfolding cycles
  cycles-backlog [] s b h few =
      P.find_many_lem is_pending s.outbox ∙ none_pending (P.rows s.outbox) (omega (arith, few))
  cycles-backlog (c ∷ cs) s b h few =
      let r = poll P R c.attempts c.now c.ready s b in
      let one = poll-backlog c s b h.0 in
      cycles-backlog cs r.0 r.1 (subst (λ t. All (IsWorking t) cs) (sym one.1) h.1)
        (omega (arith, one.0, few))
