-- ===== src/Core/Poller/Guarantee.antt =====
-- services/core/src/plugins/outbox-poller.ts: the outbox and the brokers under a cycle.
use devops_lab.Prelude.{
  ℕ, ◌≡◌, refl, Bool, true, false, ◌&&◌, ◌||◌, not, List, [], ◌∷◌, ◌++◌, arith, inl, inr,
  Bool-cases, ltb, take, All, All-take, All-where, subst, sym, any, any-append, append-nil, nat_eq,
  string_eq, any,
}
use devops_lab.Services.{Prisma, Redis}
use devops_lab.Core.Rows.{
  OutboxEvent, Message, Key, Queue, is_session_type, is_started_type, is_ended_type, same_message,
  same_message_self,
}
use devops_lab.Core.State.{Core, mark_processed}
use devops_lab.Core.Delivered.{AllDelivered, IsDelivered, sent, AllDelivered-append}
use devops_lab.Core.Poller.Retries.{send-outbox}
use devops_lab.Core.Poller.{
  Breaker, Attempt, send, deliver_one, deliver_all, poll, is_pending, batch_size, same_id, is_acked,
  is_sent, queue_of,
}
use devops_lab.Core.Poller.Keyed.{
  IsRowOf, IsKeyed, AllDelivered-done, AllDelivered-retry, IsRowOf-done, IsRowOf-retry,
  done-pending, All-IsKeyed,
}

module _ (P : Prisma) (R : Redis Key ℕ) (a : Attempt) (e : OutboxEvent) (s : Core P R) where
  send-AllDelivered :
      AllDelivered s.kafka s.rabbit (P.rows s.outbox)
      → AllDelivered (send P R a e s).0.kafka (send P R a e s).0.rabbit (P.rows s.outbox)
  unfolding send
  send-AllDelivered h =
      let k = e.payload ∷ [] in
      let r = (queue_of e, e.payload) ∷ [] in
      let none_sent = h in
      let both = AllDelivered-append s.kafka k s.rabbit r (P.rows s.outbox) h in
      let first =
        subst (λ r. AllDelivered (s.kafka ++ k) r (P.rows s.outbox)) (append-nil s.rabbit)
          (AllDelivered-append s.kafka k s.rabbit [] (P.rows s.outbox) h) in
      elim (Bool-cases (is_started_type e.event_type || is_ended_type e.event_type)) [
        | inr t ↦ rw (t, send) h
        | inl t ↦ elim (Bool-cases (is_acked a.kafka)) [
          | inl ka ↦ elim (Bool-cases (is_sent a.rabbit)) [
            | inl rs ↦ rw (t, ka, rs, send) both
            | inr rs ↦ rw (t, ka, rs, send) first
          ]
          | inr ka ↦ elim (Bool-cases (is_sent a.kafka)) [
            | inl ks ↦ rw (t, ka, ks, send) first
            | inr ks ↦ rw (t, ka, ks, send) h
          ]
        ]
      ]

  -- If nothing threw, the event has gone to both brokers, or is of another type.
  send-sent :
      (send P R a e s).1 ≡ true
      → (not (is_session_type e.event_type)
          || sent (send P R a e s).0.kafka (send P R a e s).0.rabbit e.payload)
        ≡ true
  unfolding send
  send-sent h = elim (Bool-cases (is_started_type e.event_type || is_ended_type e.event_type)) [
    | inr t ↦ rw t refl
    | inl t ↦ elim (Bool-cases (is_acked a.kafka)) [
      | inr ka ↦ absurd (ground (arith, h, t, ka))
      | inl ka ↦ elim (Bool-cases (is_sent a.rabbit)) [
        | inl rs ↦
            rw (t, ka, rs, send)
              (ground (
                arith,
                same_message_self e.payload,
                any-append (same_message e.payload) s.kafka (e.payload ∷ []),
                any-append (λ (x : Queue × Message). same_message e.payload x.1) s.rabbit
                    ((queue_of e, e.payload) ∷ []),
              ))
        | inr rs ↦ absurd (ground (arith, h, t, ka, rs))
      ]
    ]
  ]

module _ (P : Prisma) (R : Redis Key ℕ) where
  -- What a turn of the loop keeps: the promise, and the identity of the events that are left.
  abbrev Keeps : List OutboxEvent → Core P R → Type 0
  Keeps es s = IsDelivered P R s × IsKeyed es (P.rows s.outbox)

  deliver_one-Keeps :
      (a : Attempt) (e : OutboxEvent) (es : List OutboxEvent) (s : Core P R) (b : Breaker)
      → Keeps (e ∷ es) s
      → Keeps es (deliver_one P R a e s b).0
  unfolding deliver_one
  deliver_one-Keeps a e es s b h =
      let rows = P.rows s.outbox in
      let s' = (send P R a e s).0 in
      let went = send-AllDelivered P R a e s h.0 in
      elim (Bool-cases ((send P R a e s).1 && a.mark_ok)) [
        | inl ok ↦
            rw (ok, send-outbox, P.rows-update_many)
              (
                AllDelivered-done s'.kafka s'.rabbit e rows went h.1.0
                    (send-sent P R a e s (ground (arith, ok))),
                All-IsKeyed es rows _ (λ f. IsRowOf-done f (same_id e) rows) h.1.1,
              )
        | inr bad ↦ elim (Bool-cases a.retry_ok) [
          | inl r ↦
              rw (bad, r, send-outbox, P.rows-update_many)
                (
                  AllDelivered-retry s'.kafka s'.rabbit e rows went,
                  All-IsKeyed es rows _ (λ f. IsRowOf-retry f (same_id e) e rows) h.1.1,
                )
          | inr r ↦ rw (bad, r, send-outbox) (went, h.1.1)
        ]
      ]

  deliver_all-IsDelivered :
      (a : OutboxEvent → Attempt) (es : List OutboxEvent) (s : Core P R) (b : Breaker)
      → Keeps es s
      → IsDelivered P R (deliver_all P R a es s b).0
  unfolding deliver_all
  deliver_all-IsDelivered a [] s b h = h.0
  deliver_all-IsDelivered a (e ∷ es) s b h =
      let r = deliver_one P R (a e) e s b in
      let one = deliver_one-Keeps (a e) e es s b h in
      elim (Bool-cases (deliver_one P R (a e) e s b).2) [
        | inl go ↦ rw go (deliver_all-IsDelivered a es r.0 r.1 one)
        | inr stop ↦ rw stop one.0
      ]

  -- Whatever the brokers answer, a cycle of the outbox poller marks an event of a session as
  -- processed only if both brokers have been sent it, provided that the identifiers of the outbox
  -- are a key.
  pub poll-IsDelivered :
      (a : OutboxEvent → Attempt) (now : ℕ) (ready : Bool) (s : Core P R) (b : Breaker)
      → IsKeyed (P.rows s.outbox) (P.rows s.outbox)
      → IsDelivered P R s
      → IsDelivered P R (poll P R a now ready s b).0
  unfolding poll
  poll-IsDelivered a now ready s b keyed h = elim (Bool-cases (ltb now b.circuit_open_until)) [
    | inl o ↦ rw o h
    | inr c ↦ elim (Bool-cases ready) [
      | inl r ↦
          let rows = P.rows s.outbox in
          let key = λ (e : OutboxEvent). All (IsRowOf e) rows in
          let pending =
            subst (λ es. IsKeyed es rows) (sym (P.find_many_lem is_pending s.outbox))
              (All-where key is_pending rows keyed) in
          let batch = take batch_size (P.find_many is_pending s.outbox) in
          rw (c, r) (deliver_all-IsDelivered a batch s b (h, All-take key batch_size _ pending))
      | inr r ↦ rw (c, r) h
    ]
  ]

  -- An event of no session type is sent nowhere, and the turn marks it as processed all the same,
  -- whatever the brokers are like: its row is not pending afterwards.
  deliver_one-other :
      (a : Attempt) (e : OutboxEvent) (s : Core P R) (b : Breaker)
      → is_session_type e.event_type ≡ false
      → a.mark_ok ≡ true
      → let s' = (deliver_one P R a e s b).0 in
        (s'.kafka ≡ s.kafka)
        × (s'.rabbit ≡ s.rabbit)
        × (any (λ x. same_id e x && is_pending x) (P.rows s'.outbox) ≡ false)
  unfolding deliver_one send
  deliver_one-other a e s b t m =
      rw (t, m)
        (
          refl,
          refl,
          rw (P.rows-update_many (same_id e) mark_processed s.outbox)
              (done-pending e (P.rows s.outbox)),
        )
