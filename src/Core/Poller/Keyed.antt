-- ===== src/Core/Poller/Keyed.antt =====
-- The rows of the outbox by their identifiers: what the two updates of the poller keep.
use devops_lab.Prelude.{
  ◌≡◌, refl, Bool, true, false, ◌&&◌, ◌||◌, not, List, [], ◌∷◌, arith, inl, inr, Bool-cases, All,
  update_where, any, nat_eq, string_eq, ◌==◌, any,
}
use devops_lab.Core.Rows.{OutboxEvent, Message, Queue, is_session_type}
use devops_lab.Core.State.{mark_processed}
use devops_lab.Core.Delivered.{AllDelivered, sent}
use devops_lab.Core.Poller.{is_pending, same_id, record_failure}

-- The row of an event in the table: the same type and payload, whatever its state.
abbrev pub IsRowOf : OutboxEvent → OutboxEvent → Type 0
IsRowOf e x = (x.id == e.id) ≡ true → (x.payload ≡ e.payload) × (x.event_type ≡ e.event_type)

-- The primary key: rows with one identifier are one event.
abbrev pub IsKeyed : List OutboxEvent → List OutboxEvent → Type 0
IsKeyed es rows = All (λ e. All (IsRowOf e) rows) es

module _ (k : List Message) (r : List (Queue × Message)) (e : OutboxEvent) where
  pub AllDelivered-done :
      (rows : List OutboxEvent)
      → AllDelivered k r rows
      → All (IsRowOf e) rows
      → (not (is_session_type e.event_type) || sent k r e.payload) ≡ true
      → AllDelivered k r (update_where (same_id e) mark_processed rows)
  AllDelivered-done [] h keyed went = tt
  AllDelivered-done (x ∷ rows) h keyed went = elim (Bool-cases (same_id e x)) [
    | inl hit ↦
        let same = keyed.0 hit in
        (rw (hit, same.0, same.1) went, AllDelivered-done rows h.1 keyed.1 went)
    | inr miss ↦ (rw miss h.0, AllDelivered-done rows h.1 keyed.1 went)
  ]

  pub AllDelivered-retry :
      (rows : List OutboxEvent)
      → AllDelivered k r rows
      → AllDelivered k r (update_where (same_id e) (record_failure e) rows)
  AllDelivered-retry [] h = tt
  AllDelivered-retry (x ∷ rows) h = elim (Bool-cases (same_id e x)) [
    | inl hit ↦ (rw hit h.0, AllDelivered-retry rows h.1)
    | inr miss ↦ (rw miss h.0, AllDelivered-retry rows h.1)
  ]

module _ (e : OutboxEvent) (p : OutboxEvent → Bool) where
  pub IsRowOf-done :
      (rows : List OutboxEvent)
      → All (IsRowOf e) rows
      → All (IsRowOf e) (update_where p mark_processed rows)
  IsRowOf-done [] h = tt
  IsRowOf-done (x ∷ rows) h = elim (Bool-cases (p x)) [
    | inl hit ↦ (rw hit h.0, IsRowOf-done rows h.1)
    | inr miss ↦ (rw miss h.0, IsRowOf-done rows h.1)
  ]

  pub IsRowOf-retry :
      (f : OutboxEvent) (rows : List OutboxEvent)
      → All (IsRowOf e) rows
      → All (IsRowOf e) (update_where p (record_failure f) rows)
  IsRowOf-retry f [] h = tt
  IsRowOf-retry f (x ∷ rows) h = elim (Bool-cases (p x)) [
    | inl hit ↦ (rw hit h.0, IsRowOf-retry f rows h.1)
    | inr miss ↦ (rw miss h.0, IsRowOf-retry f rows h.1)
  ]

pub done-pending :
    (e : OutboxEvent) (rows : List OutboxEvent)
    → any (λ x. same_id e x && is_pending x) (update_where (same_id e) mark_processed rows) ≡ false
done-pending e [] = refl
done-pending e (x ∷ rows) = ground (arith, done-pending e rows)

-- Rewriting every row keeps what each rewritten row keeps.
pub All-IsKeyed :
    (es rows rows' : List OutboxEvent)
    → ((e : OutboxEvent) → All (IsRowOf e) rows → All (IsRowOf e) rows')
    → IsKeyed es rows
    → IsKeyed es rows'
All-IsKeyed [] rows rows' f h = tt
All-IsKeyed (e ∷ es) rows rows' f h = (f e h.0, All-IsKeyed es rows rows' f h.1)
