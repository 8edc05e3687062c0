-- ===== src/Messaging/Kafka/Attempts.antt =====
-- packages/messaging/kafka.ts: what becomes of a message.
use devops_lab.Prelude.{
  ℕ, zero, suc, ◌≡◌, ◌≤◌, ◌+◌, ◌⊎◌, refl, ap, ◌∙◌, Bool, true, false, Option, none, some, String,
  [], ◌∷◌, ◌++◌, inl, inr, Bool-cases, arith, string_eq,
}
use devops_lab.Messaging.Kafka.{
  Consumed, attempt_event, attempts_from, each_message, end_message, max_retries,
}

module _ {S E : Type 0} (parse : String → Option E) (handle : ℕ → E → S → S × Bool) where
  -- An attempt of the handler that returned, from some state, and left the state that is now.
  abbrev pub IsHandled : String → S → Type 0
  IsHandled raw now =
      (attempt : ℕ) × (e : E) × (before : S) × (1 ≤ attempt)
      × (attempt ≤ 3)
      × (parse raw ≡ some e)
      × (handle attempt e before ≡ (now, true))

  attempt_event-bounded :
      (n : ℕ) (o : Option E) (s : Consumed S)
      → let r = attempt_event parse handle n o s in
        (r.0.handled ≤ s.handled + 1) × (r.0.dead ≡ s.dead)
  attempt_event-bounded n none s = (omega arith, refl)
  attempt_event-bounded n (some e) s = (omega arith, refl)

  attempt_event-IsHandled :
      (n : ℕ) (raw : String) (o : Option E) (s : Consumed S)
      → 1 ≤ n
      → n ≤ 3
      → parse raw ≡ o
      → (attempt_event parse handle n o s).1 ≡ true
      → IsHandled raw (attempt_event parse handle n o s).0.app
  attempt_event-IsHandled n raw none s lo hi p e = cc
  attempt_event-IsHandled n raw (some x) s lo hi p e =
      (n, x, s.app, lo, hi, p, ap (λ b. ((handle n x s.app).0, b)) e)

  attempts_from-bounded :
      (left attempt : ℕ) (raw : String) (s : Consumed S)
      → let r = attempts_from parse handle left attempt raw s in
        (r.0.handled ≤ s.handled + left) × (r.0.dead ≡ s.dead)
  unfolding attempts_from
  attempts_from-bounded zero attempt raw s = (omega arith, refl)
  attempts_from-bounded (suc left) attempt raw s =
      let r = attempt_event parse handle attempt (parse raw) s in
      let one = attempt_event-bounded attempt (parse raw) s in
      let rest = attempts_from-bounded left (attempt + 1) raw r.0 in
      elim (Bool-cases r.1) [
        | inl ok ↦ rw ok (omega (arith, one.0), one.1)
        | inr bad ↦ rw bad (omega (arith, one.0, rest.0), rest.1 ∙ one.1)
      ]

  attempts_from-IsHandled :
      (left attempt : ℕ) (raw : String) (s : Consumed S)
      → 1 ≤ attempt
      → attempt + left ≤ 4
      → (attempts_from parse handle left attempt raw s).1 ≡ true
      → IsHandled raw (attempts_from parse handle left attempt raw s).0.app
  unfolding attempts_from
  attempts_from-IsHandled zero attempt raw s lo hi e = cc
  attempts_from-IsHandled (suc left) attempt raw s lo hi e =
      let r = attempt_event parse handle attempt (parse raw) s in
      elim (Bool-cases r.1) [
        | inl ok ↦
            rw ok (attempt_event-IsHandled attempt raw (parse raw) s lo (omega (arith, hi)) refl ok)
        | inr bad ↦ rw bad (
            attempts_from-IsHandled left (attempt + 1) raw r.0 (omega arith) (omega (arith, hi))
              (rw (bad, attempts_from) at e))
      ]

  -- What became of a message: handled, dead, or not committed.
  abbrev pub IsSettled : Bool → String → Consumed S → Consumed S × Bool → Type 0
  IsSettled dlq_ok raw s r =
      (r.0.handled ≤ s.handled + 3)
      × (((r.1 ≡ true) × IsHandled raw r.0.app × (r.0.dead ≡ s.dead))
          ⊎ ((r.1 ≡ true) × (r.0.dead ≡ s.dead ++ raw ∷ []))
          ⊎ ((r.1 ≡ false) × (dlq_ok ≡ false)))

  end_message-IsSettled :
      (dlq_ok : Bool) (raw : String) (s : Consumed S) (r : Consumed S × Bool)
      → (r.0.handled ≤ s.handled + 3) × (r.0.dead ≡ s.dead)
      → (r.1 ≡ true → IsHandled raw r.0.app)
      → IsSettled dlq_ok raw s (end_message parse handle dlq_ok raw r)
  end_message-IsSettled dlq_ok raw s r few h = elim (Bool-cases r.1) [
    | inl ok ↦ rw ok (few.0, inl (refl, h ok, few.1))
    | inr bad ↦ elim (Bool-cases dlq_ok) [
      | inl sent ↦ rw (bad, sent) (few.0, inr (inl (refl, ap (λ d. d ++ raw ∷ []) few.1)))
      | inr lost ↦ rw (bad, lost) (few.0, inr (inr (refl, refl)))
    ]
  ]

  -- The handler of a message runs at most three times; the message is committed because one of the
  -- attempts 1 to 3 parsed it and returned, with the state that this attempt left and no dead
  -- letter, or because it was sent to the dead letters; it is not committed only if that send
  -- failed.
  pub each_message-IsSettled :
      (dlq_ok : Bool) (raw : String) (s : Consumed S)
      → IsSettled dlq_ok raw s (each_message parse handle dlq_ok (some raw) s)
  unfolding each_message
  each_message-IsSettled dlq_ok raw s =
      end_message-IsSettled dlq_ok raw s (attempts_from parse handle max_retries 1 raw s)
        (attempts_from-bounded 3 1 raw s)
        (attempts_from-IsHandled 3 1 raw s (omega arith) (omega arith))
