-- ===== src/Auth/Outbox/Order.antt =====
-- services/auth/src/plugins/outbox.ts: the order in which a cycle sends the events.
use mathlib.Core.Logic.{inl, inr}
use devops_lab.Prelude.{
  ℕ, ◌≤◌, ◌≡◌, refl, sym, ap, ◌∙◌, Bool, true, false, ◌&&◌, not, List, [], ◌∷◌, ◌++◌, map, any, All,
  take, where_rows, update_where, Bool-cases, arith, append_assoc, append-nil, ltb, nat_eq,
}
use devops_lab.Services.{Prisma}
use devops_lab.Core.Poller.{Breaker, Attempt, Publish, acked, lost, late, is_acked, is_sent, reset}
use devops_lab.Auth.Outbox.{
  AuthOutboxEvent, AuthOutbox, is_known, same_event, count_retry, sent_of, emit_event, process_all,
  batch_of, process_outbox,
}

acked-sent : (o : Publish) → is_acked o ≡ true → is_sent o ≡ true
acked-sent acked h = refl
acked-sent lost h = absurd cc
acked-sent late h = refl

module _ {Payload : Type 0} where
  abbrev mark : AuthOutboxEvent Payload → AuthOutboxEvent Payload
  mark r = record r { processed = true }

  -- A row of the event is not marked.
  abbrev pub is_open : AuthOutboxEvent Payload → AuthOutboxEvent Payload → Bool
  is_open e r = same_event e r && not r.processed

  mark-open :
      (e : AuthOutboxEvent Payload) (rows : List (AuthOutboxEvent Payload))
      → any (is_open e) (update_where (same_event e) mark rows) ≡ false
  mark-open e [] = refl
  mark-open e (r ∷ rows) = ground (arith, mark-open e rows)

  update-open :
      (e : AuthOutboxEvent Payload) (p : AuthOutboxEvent Payload → Bool)
      (f : AuthOutboxEvent Payload → AuthOutboxEvent Payload)
      (rows : List (AuthOutboxEvent Payload))
      → ((r : AuthOutboxEvent Payload) → is_open e r ≡ false → is_open e (f r) ≡ false)
      → any (is_open e) rows ≡ false
      → any (is_open e) (update_where p f rows) ≡ false
  update-open e p f [] keep h = refl
  update-open e p f (r ∷ rows) keep h =
      let kept = keep r (ground (arith, h)) in
      let rest = update-open e p f rows keep (ground (arith, h)) in
      elim (Bool-cases (p r)) [
        | inl hit ↦ rw (hit, kept) rest
        | inr miss ↦ rw miss (ground (arith, h, rest))
      ]

module _ (P : Prisma) {Payload : Type 0} where
  abbrev pub IsMarked : AuthOutbox P Payload → AuthOutboxEvent Payload → Type 0
  IsMarked s e = any (is_open e) (P.rows s.table) ≡ false

  update-IsMarked :
      (e : AuthOutboxEvent Payload) (p : AuthOutboxEvent Payload → Bool)
      (f : AuthOutboxEvent Payload → AuthOutboxEvent Payload) (s : AuthOutbox P Payload)
      → ((r : AuthOutboxEvent Payload) → is_open e r ≡ false → is_open e (f r) ≡ false)
      → IsMarked s e
      → IsMarked (record s { table = P.update_many p f s.table }) e
  update-IsMarked e p f s keep h =
      rw (P.rows-update_many p f s.table) (update-open e p f (P.rows s.table) keep h)

  emit_event-table :
      (a : Attempt) (e : AuthOutboxEvent Payload) (s : AuthOutbox P Payload)
      → (emit_event P a e s).table ≡ s.table
  emit_event-table a e s = elim (Bool-cases (is_sent a.kafka)) [
    | inl h ↦ rw h refl
    | inr h ↦ rw h refl
  ]

  -- What is marked stays marked.
  process_all-IsMarked :
      (x : AuthOutboxEvent Payload) (a : AuthOutboxEvent Payload → Attempt)
      (es : List (AuthOutboxEvent Payload)) (s : AuthOutbox P Payload) (b : Breaker)
      → IsMarked s x
      → IsMarked (process_all P a es s b).0 x
  unfolding process_all
  process_all-IsMarked x a [] s b h = h
  process_all-IsMarked x a (e ∷ es) s b h =
      let s' = emit_event P (a e) e s in
      let h' : IsMarked s' x = rw (emit_event-table (a e) e s) h in
      elim (Bool-cases (is_known e)) [
        | inl k ↦ elim (Bool-cases (is_acked (a e).kafka && (a e).mark_ok)) [
          | inl ok ↦
              rw (k, ok)
                (process_all-IsMarked x a es _ (reset b)
                  (update-IsMarked x (same_event e) mark s' (λ r o. ground (arith, o)) h'))
          | inr bad ↦ elim (Bool-cases (a e).retry_ok) [
            | inl r ↦
                rw (k, bad, r)
                  (update-IsMarked x (same_event e) (count_retry e) s' (λ q o. ground (arith, o))
                    h')
            | inr r ↦ rw (k, bad, r) h'
          ]
        ]
        | inr k ↦ rw k (process_all-IsMarked x a es s b h)
      ]

  -- A first part of the events was sent and marked; of the others at most the first was sent.
  abbrev pub IsInOrder :
      List (AuthOutboxEvent Payload) → AuthOutbox P Payload → AuthOutbox P Payload → Type 0
  IsInOrder events s s' =
      (done : List (AuthOutboxEvent Payload)) × (left : List (AuthOutboxEvent Payload)) × (n : ℕ)
      × (events ≡ done ++ left)
      × (n ≤ 1)
      × (s'.kafka ≡ s.kafka ++ map sent_of (done ++ take n left))
      × All (IsMarked s') done

  IsMarked-mark :
      (e : AuthOutboxEvent Payload) (s : AuthOutbox P Payload)
      → IsMarked (record s { table = P.update_many (same_event e) mark s.table }) e
  IsMarked-mark e s =
      rw (P.rows-update_many (same_event e) mark s.table) (mark-open e (P.rows s.table))

  -- A first event that was sent and marked, then the others.
  then-IsInOrder :
      (e : AuthOutboxEvent Payload) (events : List (AuthOutboxEvent Payload))
      (s s1 s' : AuthOutbox P Payload)
      → s1.kafka ≡ s.kafka ++ sent_of e ∷ []
      → IsMarked s' e
      → IsInOrder events s1 s'
      → IsInOrder (e ∷ events) s s'
  then-IsInOrder e events s s1 s' sent marked (done, left, n, split, few, log, all) = (
    e ∷ done,
    left,
    n,
    ap (λ l. e ∷ l) split,
    few,
    log
        ∙ ap (λ l. l ++ map sent_of (done ++ take n left)) sent
        ∙ append_assoc s.kafka (sent_of e ∷ []) (map sent_of (done ++ take n left)),
    (marked, all),
  )

  -- A first event that failed, sent or not.
  failed-IsInOrder :
      (a : Attempt) (e : AuthOutboxEvent Payload) (events : List (AuthOutboxEvent Payload))
      (s s' : AuthOutbox P Payload)
      → s'.kafka ≡ (emit_event P a e s).kafka
      → IsInOrder (e ∷ events) s s'
  failed-IsInOrder a e events s s' same = elim (Bool-cases (is_sent a.kafka)) [
    | inl h ↦ ([], e ∷ events, 1, refl, omega arith, same ∙ rw h refl, tt)
    | inr h ↦ ([], e ∷ events, 0, refl, omega arith, same ∙ rw h (sym (append-nil s.kafka)), tt)
  ]

  process_all-IsInOrder :
      (a : AuthOutboxEvent Payload → Attempt) (es : List (AuthOutboxEvent Payload))
      (s : AuthOutbox P Payload) (b : Breaker)
      → IsInOrder (where_rows is_known es) s (process_all P a es s b).0
  unfolding process_all
  process_all-IsInOrder a [] s b = ([], [], 0, refl, omega arith, sym (append-nil s.kafka), tt)
  process_all-IsInOrder a (e ∷ es) s b =
      let s' = emit_event P (a e) e s in
      let marked = record s' { table = P.update_many (same_event e) mark s'.table } in
      elim (Bool-cases (is_known e)) [
        | inl k ↦ elim (Bool-cases (is_acked (a e).kafka && (a e).mark_ok)) [
          | inl ok ↦
              let sent = acked-sent (a e).kafka (ground (arith, ok)) in
              rw (k, ok)
                (then-IsInOrder e (where_rows is_known es) s marked
                  (process_all P a es marked (reset b)).0 (rw sent refl)
                  (process_all-IsMarked e a es marked (reset b) (IsMarked-mark e s'))
                  (process_all-IsInOrder a es marked (reset b)))
          | inr bad ↦ elim (Bool-cases (a e).retry_ok) [
            | inl r ↦ rw (k, bad, r) (failed-IsInOrder (a e) e (where_rows is_known es) s _ refl)
            | inr r ↦ rw (k, bad, r) (failed-IsInOrder (a e) e (where_rows is_known es) s _ refl)
          ]
        ]
        | inr k ↦ rw k (process_all-IsInOrder a es s b)
      ]

  -- Whatever Kafka and the database answer, a cycle of the auth service's outbox sends, of the
  -- known events that it has read, a first part in their order, and marks every one of them as
  -- processed, except that the last one sent may be left unmarked; no other event is sent.
  pub process_outbox-IsInOrder :
      (by_age : List (AuthOutboxEvent Payload) → List (AuthOutboxEvent Payload))
      (a : AuthOutboxEvent Payload → Attempt) (now : ℕ) (ready : Bool) (s : AuthOutbox P Payload)
      (b : Breaker)
      → IsInOrder
          (where_rows is_known (batch_of P by_age s))
          s
          (process_outbox P by_age a now ready s b).0
  unfolding process_outbox
  process_outbox-IsInOrder by_age a now ready s b =
      let known = where_rows is_known (batch_of P by_age s) in
      let idle : IsInOrder known s s =
        ([], known, 0, refl, omega arith, sym (append-nil s.kafka), tt) in
      elim (Bool-cases (ltb now b.circuit_open_until)) [
        | inl shut ↦ rw shut idle
        | inr ok ↦ elim (Bool-cases ready) [
          | inl r ↦ rw (ok, r) (process_all-IsInOrder a (batch_of P by_age s) s b)
          | inr r ↦ rw (ok, r) idle
        ]
      ]
