-- ===== src/Core/Reaper/Promise.antt =====
-- services/core/src/plugins/session-reaper.ts: the outbox and the leader's lock under the reaper.
use devops_lab.Prelude.{
  ℕ, ◌≡◌, ◌+◌, ◌*◌, ◌≤◌, ◌<◌, refl, true, false, none, some, List, [], ◌∷◌, ◌++◌, inl, inr, ◌&&◌,
  Bool-cases, nat_eq, string_eq, ◌==◌, take, ltb, arith, update_where, subst, append-nil, any, All,
  All-append, ◌∙◌, ap, sym,
}
use devops_lab.Services.{Prisma, Redis}
use devops_lab.Core.Rows.{
  LabSession, OutboxEvent, Message, Queue, Key, session_ended, ended_expired, terminate_sandbox,
  reaper_leader, same_message_self,
}
use devops_lab.Core.State.{Core, outbox_row, mark_processed}
use devops_lab.Core.Delivered.{
  AllDelivered, IsDelivered, AllDelivered-append, sent, create-AllDelivered, sent-publish,
}
use devops_lab.Core.Reaper.{
  Reap, emit_ended, reap_one, reap_all, reap, is_expired, leader_lock_ttl_seconds,
}

-- No event of the outbox has the identifier, or the event has been sent.
abbrev MarksSent : List Message → List (Queue × Message) → ℕ → List OutboxEvent → Type 0
MarksSent k r id = All (λ e. (e.id == id) ≡ true → sent k r e.payload ≡ true)

AllDelivered-mark_id :
    (k : List Message) (r : List (Queue × Message)) (id : ℕ) (es : List OutboxEvent)
    → MarksSent k r id es
    → AllDelivered k r es
    → AllDelivered k r (update_where (λ (e : OutboxEvent). e.id == id) mark_processed es)
AllDelivered-mark_id k r id [] m h = tt
AllDelivered-mark_id k r id (e ∷ es) m h = elim (Bool-cases (e.id == id)) [
  | inl hit ↦ (rw hit (ground (arith, m.0 hit)), AllDelivered-mark_id k r id es m.1 h.1)
  | inr miss ↦ (rw miss h.0, AllDelivered-mark_id k r id es m.1 h.1)
]

-- Every event with the identifier carries the payload.
abbrev IsPayloadOf : ℕ → Message → List OutboxEvent → Type 0
IsPayloadOf id m = All (λ (e : OutboxEvent). (e.id == id) ≡ true → e.payload ≡ m)

IsPayloadOf-fresh :
    (id : ℕ) (m : Message) (es : List OutboxEvent)
    → any (λ (e : OutboxEvent). e.id == id) es ≡ false
    → IsPayloadOf id m es
IsPayloadOf-fresh id m [] h = tt
IsPayloadOf-fresh id m (e ∷ es) h =
    ((λ hit. absurd (ground (arith, h, hit))), IsPayloadOf-fresh id m es (ground (arith, h)))

MarksSent-publish :
    (k : List Message) (r : List (Queue × Message)) (to : Queue) (m : Message) (id : ℕ)
    (es : List OutboxEvent)
    → IsPayloadOf id m es
    → MarksSent (k ++ m ∷ []) (r ++ (to, m) ∷ []) id es
MarksSent-publish k r to m id [] h = tt
MarksSent-publish k r to m id (e ∷ es) h = (
  (λ hit. rw (h.0 hit) (sent-publish k r to m m (same_message_self m))),
  MarksSent-publish k r to m id es h.1,
)

module _ (P : Prisma) (R : Redis Key ℕ) where
  emit_ended-kv : (q : Reap) (id : ℕ) (s : Core P R) → (emit_ended P R q id s).kv ≡ s.kv
  unfolding emit_ended
  emit_ended-kv q id s = ground arith

  reap_one-kv : (q : Reap) (r : LabSession) (s : Core P R) → (reap_one P R q r s).kv ≡ s.kv
  unfolding reap_one
  reap_one-kv q r s = elim (Bool-cases (q.session_ok && q.event_ok)) [
    | inl e ↦ rw (e, emit_ended-kv, reap_one) refl
    | inr e ↦ rw (e, reap_one) refl
  ]

  reap_all-kv :
      (q : ℕ → Reap) (rs : List LabSession) (s : Core P R) → (reap_all P R q rs s).kv ≡ s.kv
  unfolding reap_all
  reap_all-kv q [] s = refl
  reap_all-kv q (r ∷ rs) s = reap_all-kv q rs (reap_one P R (q r.id) r s) ∙ reap_one-kv (q r.id) r s

  reap-held :
      (q : ℕ → Reap) (now instance_id ttl guest_ttl leader : ℕ) (s : Core P R)
      → R.get s.kv now reaper_leader ≡ some leader
      → reap P R q now instance_id ttl guest_ttl s ≡ s
  unfolding reap
  reap-held q now instance_id ttl guest_ttl leader s e = rw (e, reap) refl

  reap-free :
      (q : ℕ → Reap) (now instance_id ttl guest_ttl : ℕ) (s : Core P R)
      → R.get s.kv now reaper_leader ≡ none
      → reap P R q now instance_id ttl guest_ttl s
        ≡ reap_all P R q
            (take 50 (P.find_many (is_expired now ttl guest_ttl) s.sessions))
            (record s { kv = R.set_ex s.kv now reaper_leader instance_id leader_lock_ttl_seconds })
  unfolding reap
  reap-free q now instance_id ttl guest_ttl s e = rw (e, reap) refl

  -- One replica works at a time: after a cycle that took the free lock, a cycle of any replica in
  -- the next ninety seconds changes nothing.
  reap-alone :
      (q q' : ℕ → Reap) (now later first second ttl guest_ttl : ℕ) (s : Core P R)
      → R.get s.kv now reaper_leader ≡ none
      → now ≤ later
      → later < now + 90 * 1000
      → let s' = reap P R q now first ttl guest_ttl s in
        reap P R q' later second ttl guest_ttl s' ≡ s'
  reap-alone q q' now later first second ttl guest_ttl s free le lt =
      let led = record s { kv = R.set_ex s.kv now reaper_leader first leader_lock_ttl_seconds } in
      let batch = take 50 (P.find_many (is_expired now ttl guest_ttl) s.sessions) in
      let in_time : ltb later (now + leader_lock_ttl_seconds * 1000) ≡ true = ground (arith, lt) in
      let held : R.get led.kv later reaper_leader ≡ some first =
        R.get-set_ex_self s.kv now later reaper_leader first leader_lock_ttl_seconds le
        ∙ rw in_time refl in
      let after : R.get (reap_all P R q batch led).kv later reaper_leader ≡ some first =
        ap (λ kv. R.get kv later reaper_leader) (reap_all-kv q batch led) ∙ held in
      subst (λ x. reap P R q' later second ttl guest_ttl x ≡ x)
        (sym (reap-free q now first ttl guest_ttl s free))
        (reap-held q' later second ttl guest_ttl first (reap_all P R q batch led) after)

  -- The publication sends the event first, and marks only it.
  emit_ended-IsDelivered :
      (q : Reap) (id : ℕ) (s : Core P R)
      → IsDelivered P R s
      → IsPayloadOf q.fresh_event (session_ended id ended_expired) (P.rows s.outbox)
      → IsDelivered P R (emit_ended P R q id s)
  unfolding emit_ended
  emit_ended-IsDelivered q id s h own =
      let m = session_ended id ended_expired in
      let es = P.rows s.outbox in
      let both = AllDelivered-append s.kafka (m ∷ []) s.rabbit ((terminate_sandbox, m) ∷ []) es h in
      elim (Bool-cases q.delivery.kafka_ok) [
        | inr e ↦ rw (e, emit_ended) h
        | inl e ↦ elim (Bool-cases q.delivery.rabbit_ok) [
          | inr e' ↦
              rw (e, e', emit_ended)
                (subst (λ r. AllDelivered (s.kafka ++ m ∷ []) r es) (append-nil s.rabbit)
                  (AllDelivered-append s.kafka (m ∷ []) s.rabbit [] es h))
          | inl e' ↦ elim (Bool-cases q.delivery.mark_ok) [
            | inr e'' ↦ rw (e, e', e'', emit_ended) both
            | inl e'' ↦
                rw (e, e', e'', emit_ended, P.rows-update_many)
                  (AllDelivered-mark_id _ _ q.fresh_event es
                    (MarksSent-publish s.kafka s.rabbit terminate_sandbox m q.fresh_event es own)
                    both)
          ]
        ]
      ]

  -- Reaping a session keeps the promise of the outbox, whichever of its writes succeed and whatever
  -- the brokers answer, provided that the identifier of its event is new in the outbox.
  reap_one-IsDelivered :
      (q : Reap) (r : LabSession) (s : Core P R)
      → any (λ (e : OutboxEvent). e.id == q.fresh_event) (P.rows s.outbox) ≡ false
      → IsDelivered P R s
      → IsDelivered P R (reap_one P R q r s)
  unfolding reap_one outbox_row
  reap_one-IsDelivered q r s fresh h =
      let m = session_ended r.id ended_expired in
      let new = outbox_row q.fresh_event "SessionEndedEvent" m q.now in
      let own =
        All-append (λ (e : OutboxEvent). (e.id == q.fresh_event) ≡ true → e.payload ≡ m)
          (P.rows s.outbox) (new ∷ []) (IsPayloadOf-fresh q.fresh_event m (P.rows s.outbox) fresh)
          ((λ hit. refl), tt) in
      let with_event =
        create-AllDelivered P R s.kafka s.rabbit q.fresh_event q.now "SessionEndedEvent" m s.outbox
          h in
      elim (Bool-cases q.event_ok) [
        | inr e ↦ elim (Bool-cases q.session_ok) [
          | inl o ↦ rw (e, o, reap_one) h
          | inr o ↦ rw (e, o, reap_one) h
        ]
        | inl e ↦ elim (Bool-cases q.session_ok) [
          | inr o ↦ rw (e, o, reap_one) with_event
          | inl o ↦
              rw (e, o, reap_one)
                (emit_ended-IsDelivered q r.id _ with_event
                  (subst (IsPayloadOf q.fresh_event m) (sym (P.rows-create new s.outbox)) own))
        ]
      ]
