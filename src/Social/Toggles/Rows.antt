-- ===== src/Social/Toggles/Rows.antt =====
-- A toggle on a list of rows: the row is taken out if it is there, and added if it is not.
use devops_lab.Prelude.{
  ◌+◌, ◌≤◌, ◌≡◌, refl, Bool, true, false, not, inl, inr, Bool-cases, List, [], ◌∷◌, ◌++◌, any,
  count, where_rows, if◌then◌else◌, arith, any-append, count-append, count-any, any-count,
}

module _ {Row : Type 0} where
  -- Of the deleted rows none is left,
  any-delete : (p : Row → Bool) (rows : List Row) → any p (where_rows (λ r. not (p r)) rows) ≡ false
  any-delete p [] = refl
  any-delete p (x ∷ rows) = ground (arith, any-delete p rows)

  -- and the others stay.
  any-delete-other :
      (p q : Row → Bool) (rows : List Row)
      → ((r : Row) → p r ≡ true → q r ≡ false)
      → any q (where_rows (λ r. not (p r)) rows) ≡ any q rows
  any-delete-other p q [] h = refl
  any-delete-other p q (x ∷ rows) h = elim (Bool-cases (p x)) [
    | inl e ↦ rw (e, h x e) (any-delete-other p q rows h)
    | inr e ↦ ground (arith, e, any-delete-other p q rows h)
  ]

  count-delete :
      (p q : Row → Bool) (rows : List Row)
      → ((r : Row) → p r ≡ true → q r ≡ true)
      → count q (where_rows (λ r. not (p r)) rows) + count p rows ≡ count q rows
  count-delete p q [] h = refl
  count-delete p q (x ∷ rows) h = elim (Bool-cases (p x)) [
    | inl e ↦ let qx = h x e in ground (arith, e, qx, count-delete p q rows h)
    | inr e ↦ ground (arith, e, count-delete p q rows h)
  ]

  count-delete-le :
      (p q : Row → Bool) (rows : List Row)
      → count q (where_rows (λ r. not (p r)) rows) ≤ count q rows
  count-delete-le p q [] = omega arith
  count-delete-le p q (x ∷ rows) = ground (arith, count-delete-le p q rows)

  -- The rows that a toggle leaves.
  abbrev pub toggled_rows : (Row → Bool) → Row → List Row → List Row
  toggled_rows p row rows =
      if any p rows then where_rows (λ r. not (p r)) rows else rows ++ row ∷ []

  pub any-toggled :
      (p : Row → Bool) (row : Row) (rows : List Row)
      → p row ≡ true
      → any p (toggled_rows p row rows) ≡ not (any p rows)
  any-toggled p row rows h = elim (Bool-cases (any p rows)) [
    | inl e ↦ rw e (any-delete p rows)
    | inr e ↦ rw e (rw (any-append p rows (row ∷ []), e, h) refl)
  ]

  pub any-toggled-other :
      (p q : Row → Bool) (row : Row) (rows : List Row)
      → q row ≡ false
      → ((r : Row) → p r ≡ true → q r ≡ false)
      → any q (toggled_rows p row rows) ≡ any q rows
  any-toggled-other p q row rows miss h = elim (Bool-cases (any p rows)) [
    | inl e ↦ rw e (any-delete-other p q rows h)
    | inr e ↦ ground (arith, e, any-append q rows (row ∷ []), miss)
  ]

  -- A row more or a row less of those counted.
  pub count-toggled :
      (p q : Row → Bool) (row : Row) (rows : List Row)
      → q row ≡ true
      → ((r : Row) → p r ≡ true → q r ≡ true)
      → count p rows ≤ 1
      → count q (toggled_rows p row rows) + (if any p rows then 1 else 0)
        ≡ count q rows + (if any p rows then 0 else 1)
  count-toggled p q row rows hit h single = elim (Bool-cases (any p rows)) [
    | inl e ↦ rw e (omega (arith, count-delete p q rows h, any-count p rows e, single))
    | inr e ↦ rw e (ground (arith, count-append q rows (row ∷ []), hit))
  ]

  pub single-toggled :
      (p q : Row → Bool) (row : Row) (rows : List Row)
      → (q row ≡ true → any p rows ≡ false → any q rows ≡ false)
      → count q rows ≤ 1
      → count q (toggled_rows p row rows) ≤ 1
  single-toggled p q row rows h single = elim (Bool-cases (any p rows)) [
    | inl e ↦ rw e (omega (arith, count-delete-le p q rows, single))
    | inr e ↦ elim (Bool-cases (q row)) [
      | inl hit ↦
          rw e (ground (arith, count-append q rows (row ∷ []), hit, count-any q rows (h hit e)))
      | inr miss ↦ rw e (ground (arith, count-append q rows (row ∷ []), miss, single))
    ]
  ]
