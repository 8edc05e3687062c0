-- ===== src/Core/Delivered.antt =====
-- The promise of the outbox (the comments of challenge.routes.ts and of outbox-poller.ts): an event
-- of a session that is marked as processed has been sent to both brokers.
use devops_lab.Prelude.{
  ◌≡◌, refl, Bool, true, ◌&&◌, ◌||◌, not, List, [], ◌∷◌, ◌++◌, String, arith, any, All,
  update_where, inl, inr, Bool-cases, nat_eq, string_eq, any-append, ℕ, All-append, subst,
  append-nil,
}
use devops_lab.Services.{Prisma, Redis}
use devops_lab.Core.Rows.{OutboxEvent, Message, Queue, Key, same_message, is_session_type, has}
use devops_lab.Core.State.{Core, Delivery, outbox_row, undelivered, mark_processed, publish_inline}

abbrev pub sent : List Message → List (Queue × Message) → Message → Bool
sent kafka rabbit m = has m kafka && any (λ (e : Queue × Message). same_message m e.1) rabbit

-- Marked as processed, and of a type of a session, implies sent.
abbrev pub is_delivered : List Message → List (Queue × Message) → OutboxEvent → Bool
is_delivered kafka rabbit e =
    not e.processed || (not (is_session_type e.event_type) || sent kafka rabbit e.payload)

abbrev pub AllDelivered : List Message → List (Queue × Message) → List OutboxEvent → Type 0
AllDelivered kafka rabbit = All (λ e. is_delivered kafka rabbit e ≡ true)

module _ (k k' : List Message) (r r' : List (Queue × Message)) where
  sent-append : (m : Message) → sent k r m ≡ true → sent (k ++ k') (r ++ r') m ≡ true
  sent-append m h = ground (
    arith,
    any-append (same_message m) k k',
    any-append (λ (e : Queue × Message). same_message m e.1) r r',
  )

  pub AllDelivered-append :
      (es : List OutboxEvent) → AllDelivered k r es → AllDelivered (k ++ k') (r ++ r') es
  AllDelivered-append [] h = tt
  AllDelivered-append (e ∷ es) h =
      (ground (arith, sent-append e.payload), AllDelivered-append es h.1)

module _ (k : List Message) (r : List (Queue × Message)) (q : Queue) (m : Message) where
  pub sent-publish :
      (e : Message) → same_message e m ≡ true → sent (k ++ m ∷ []) (r ++ (q, m) ∷ []) e ≡ true
  sent-publish e h = ground (
    arith,
    any-append (same_message e) k (m ∷ []),
    any-append (λ (x : Queue × Message). same_message e x.1) r ((q, m) ∷ []),
  )

  -- Marking the events with the payload that has just gone to both brokers keeps the promise.
  pub AllDelivered-mark :
      (type : String) (es : List OutboxEvent)
      → AllDelivered k r es
      → AllDelivered
          (k ++ m ∷ [])
          (r ++ (q, m) ∷ [])
          (update_where (undelivered type m) mark_processed es)
  AllDelivered-mark type [] h = tt
  AllDelivered-mark type (e ∷ es) h = elim (Bool-cases (undelivered type m e)) [
    | inl hit ↦ (rw hit (ground (arith, sent-publish e.payload)), AllDelivered-mark type es h.1)
    | inr miss ↦ (
      rw miss (AllDelivered-append k (m ∷ []) r ((q, m) ∷ []) (e ∷ []) (h.0, tt)).0,
      AllDelivered-mark type es h.1,
    )
  ]

module _ (P : Prisma) (R : Redis Key ℕ) where
  -- Every event of a session that is marked as processed has been sent to Kafka and to RabbitMQ.
  abbrev pub IsDelivered : Core P R → Type 0
  IsDelivered s = AllDelivered s.kafka s.rabbit (P.rows s.outbox)

  pub publish_inline-IsDelivered :
      (d : Delivery) (type : String) (q : Queue) (m : Message) (s : Core P R)
      → IsDelivered s
      → IsDelivered (publish_inline P R d type q m s)
  unfolding publish_inline
  publish_inline-IsDelivered d type q m s h = elim (Bool-cases d.kafka_ok) [
    | inr e ↦ rw e h
    | inl e ↦ elim (Bool-cases d.rabbit_ok) [
      | inr e' ↦
          rw (e, e')
            (subst (λ r. AllDelivered (s.kafka ++ m ∷ []) r (P.rows s.outbox)) (append-nil s.rabbit)
              (AllDelivered-append s.kafka (m ∷ []) s.rabbit [] (P.rows s.outbox) h))
      | inl e' ↦ elim (Bool-cases d.mark_ok) [
        | inr e'' ↦
            rw (e, e', e'')
              (AllDelivered-append s.kafka (m ∷ []) s.rabbit ((q, m) ∷ []) (P.rows s.outbox) h)
        | inl e'' ↦
            rw (e, e', e'', P.rows-update_many)
              (AllDelivered-mark s.kafka s.rabbit q m type (P.rows s.outbox) h)
      ]
    ]
  ]

  pub create-AllDelivered :
      (k : List Message) (r : List (Queue × Message)) (id now : ℕ) (type : String) (m : Message)
      (t : P.Table OutboxEvent)
      → AllDelivered k r (P.rows t)
      → AllDelivered k r (P.rows (P.create (outbox_row id type m now) t))
  unfolding outbox_row
  create-AllDelivered k r id now type m t h =
      rw (P.rows-create (outbox_row id type m now) t)
        (All-append (λ e. is_delivered k r e ≡ true) (P.rows t) _ h (refl, tt))
