-- ===== src/Core/Poller/Batches.antt =====
-- services/core/src/plugins/outbox-poller.ts: the rows of the outbox that a batch leaves pending.
use devops_lab.Prelude.{
  ℕ, zero, suc, ◌≡◌, ◌≤◌, ◌+◌, refl, sym, ◌∙◌, Bool, true, false, ◌&&◌, ◌||◌, not, List, [], ◌∷◌,
  arith, inl, inr, Bool-cases, take, length, update_where, where_rows, any, count, subst, nat_eq,
  eq_self, min,
}
use devops_lab.Core.Rows.{OutboxEvent}
use devops_lab.Core.State.{mark_processed}
use devops_lab.Core.Poller.{is_pending, same_id}

-- One of the events of a list has the row's identifier.
abbrev is_among : List OutboxEvent → OutboxEvent → Bool
is_among es x = any (λ e. same_id e x) es

abbrev pub mark_all : List OutboxEvent → List OutboxEvent → List OutboxEvent
mark_all [] rows = rows
mark_all (e ∷ es) rows = mark_all es (update_where (same_id e) mark_processed rows)

abbrev left : (OutboxEvent → Bool) → OutboxEvent → Bool
left q x = is_pending x && not (q x)

count-ext :
    (p q : OutboxEvent → Bool) (rows : List OutboxEvent)
    → ((x : OutboxEvent) → p x ≡ q x)
    → count p rows ≡ count q rows
count-ext p q [] h = refl
count-ext p q (x ∷ rows) h = ground (arith, h x, count-ext p q rows h)

count-left-le :
    (q : OutboxEvent → Bool) (rows : List OutboxEvent) → count (left q) rows ≤ count is_pending rows
count-left-le q [] = omega arith
count-left-le q (x ∷ rows) = ground (arith, count-left-le q rows)

count-marked :
    (e : OutboxEvent) (q : OutboxEvent → Bool) (rows : List OutboxEvent)
    → ((x : OutboxEvent) → q (mark_processed x) ≡ q x)
    → count (left q) (update_where (same_id e) mark_processed rows)
      ≡ count (left (λ x. q x || same_id e x)) rows
count-marked e q [] h = refl
count-marked e q (x ∷ rows) h =
    ground (arith, h x, count-marked e q rows h, Bool-cases (same_id e x), Bool-cases (q x))

count-mark_all :
    (es : List OutboxEvent) (rows : List OutboxEvent)
    → count is_pending (mark_all es rows) ≡ count (left (is_among es)) rows
count-mark_all [] rows = count-ext is_pending (left (is_among [])) rows (λ x. ground arith)
count-mark_all (e ∷ es) rows =
    count-mark_all es (update_where (same_id e) mark_processed rows)
    ∙ count-marked e (is_among es) rows (is_among-mark es)
    ∙ count-ext _ _ rows (λ x. ground arith)
  where
    is_among-mark :
        (es : List OutboxEvent) (x : OutboxEvent) → is_among es (mark_processed x) ≡ is_among es x
    is_among-mark [] x = refl
    is_among-mark (e ∷ es) x = ground (arith, is_among-mark es x)

-- The first row of a batch is not left.
head_left :
    (q : OutboxEvent → Bool) (x : OutboxEvent) (rest rows : List OutboxEvent)
    → count (left (λ y. (q y || same_id x y) || is_among rest y)) rows + length rest
      ≤ count is_pending rows
    → count (left (λ y. q y || is_among (x ∷ rest) y)) (x ∷ rows) + suc (length rest)
      ≤ suc (count is_pending rows)
head_left q x rest rows h =
    let regrouped =
      count-ext (left (λ y. q y || is_among (x ∷ rest) y))
        (left (λ y. (q y || same_id x y) || is_among rest y)) rows (λ y. ground arith) in
    let own : same_id x x ≡ true = eq_self x.id in
    let miss : left (λ y. q y || is_among (x ∷ rest) y) x ≡ false = rw own (ground arith) in
    rw miss (omega (arith, h, regrouped))

-- The rows that a batch leaves pending.
batch-left :
    (n : ℕ) (q : OutboxEvent → Bool) (rows : List OutboxEvent)
    → let batch = take n (where_rows is_pending rows) in
      count (left (λ x. q x || is_among batch x)) rows + length batch ≤ count is_pending rows
batch-left zero q rows = omega (arith, count-left-le (λ x. q x || is_among [] x) rows)
batch-left (suc n) q [] = omega arith
batch-left (suc n) q (x ∷ rows) = elim (Bool-cases (is_pending x)) [
  | inl e ↦
      let rest = take n (where_rows is_pending rows) in
      let chosen : where_rows is_pending (x ∷ rows) ≡ x ∷ where_rows is_pending rows = rw e refl in
      let more : count is_pending (x ∷ rows) ≡ suc (count is_pending rows) = rw e refl in
      subst
        (λ chosen_rows.
          count (left (λ y. q y || is_among (take (suc n) chosen_rows) y)) (x ∷ rows)
            + length (take (suc n) chosen_rows)
          ≤ count is_pending (x ∷ rows))
        (sym chosen)
        (omega (arith, more, head_left q x rest rows (batch-left n (λ y. q y || same_id x y) rows)))
  | inr e ↦
      let rest = take (suc n) (where_rows is_pending rows) in
      let passed : where_rows is_pending (x ∷ rows) ≡ where_rows is_pending rows = rw e refl in
      let same : count is_pending (x ∷ rows) ≡ count is_pending rows = rw e refl in
      let same_left : count (left (λ y. q y || is_among rest y)) (x ∷ rows)
          ≡ count (left (λ y. q y || is_among rest y)) rows =
        rw e refl in
      subst
        (λ chosen_rows.
          count (left (λ y. q y || is_among (take (suc n) chosen_rows) y)) (x ∷ rows)
            + length (take (suc n) chosen_rows)
          ≤ count is_pending (x ∷ rows))
        (sym passed) (omega (arith, same, same_left, batch-left (suc n) q rows))
]

-- What is pending in a table.
abbrev pub backlog : List OutboxEvent → ℕ
backlog rows = count is_pending rows

pub batch-backlog :
    (n : ℕ) (rows : List OutboxEvent)
    → let batch = take n (where_rows is_pending rows) in
      backlog (mark_all batch rows) + length batch ≤ backlog rows
batch-backlog n rows =
    let batch = take n (where_rows is_pending rows) in
    omega (arith, batch-left n (λ x. false) rows, count-mark_all batch rows)

pub length-take-where :
    (n : ℕ) (rows : List OutboxEvent)
    → length (take n (where_rows is_pending rows)) ≡ min n (backlog rows)
length-take-where zero rows = omega arith
length-take-where (suc n) [] = omega arith
length-take-where (suc n) (x ∷ rows) = elim (Bool-cases (is_pending x)) [
  | inl e ↦ rw e (omega (arith, length-take-where n rows))
  | inr e ↦ rw e (length-take-where (suc n) rows)
]

pub none_pending : (rows : List OutboxEvent) → backlog rows ≤ 0 → where_rows is_pending rows ≡ []
none_pending [] h = refl
none_pending (x ∷ rows) h = elim (Bool-cases (is_pending x)) [
  | inl e ↦ absurd (ground (arith, h, e))
  | inr e ↦ rw e (none_pending rows (rw e at h))
]
