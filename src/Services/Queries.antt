-- ===== src/Services/Queries.antt =====
-- What the rows of a query keep when a table changes elsewhere.
use devops_lab.Prelude.{
  ◌≡◌, refl, sym, ap, ◌∙◌, Bool, true, false, not, List, [], ◌∷◌, ◌++◌, where_rows, update_where,
  inl, inr, Bool-cases, arith, any, is_some, Option-cases,
}
use devops_lab.Services.Database.{Prisma}

where_rows-append-miss :
    {Row : Type 0} (p : Row → Bool) (rows : List Row) (r : Row)
    → p r ≡ false
    → where_rows p (rows ++ r ∷ []) ≡ where_rows p rows
where_rows-append-miss p [] r h = rw h refl
where_rows-append-miss p (x ∷ rows) r h = ground (arith, where_rows-append-miss p rows r h)

where_rows-update-miss :
    {Row : Type 0} (p q : Row → Bool) (f : Row → Row) (rows : List Row)
    → ((r : Row) → q r ≡ true → (p r ≡ false) × (p (f r) ≡ false))
    → where_rows p (update_where q f rows) ≡ where_rows p rows
where_rows-update-miss p q f [] h = refl
where_rows-update-miss p q f (x ∷ rows) h = elim (Bool-cases (q x)) [
  | inl e ↦ let miss = h x e in rw (e, miss.0, miss.1) (where_rows-update-miss p q f rows h)
  | inr e ↦ ground (arith, e, where_rows-update-miss p q f rows h)
]

where_rows-delete-miss :
    {Row : Type 0} (p q : Row → Bool) (rows : List Row)
    → ((r : Row) → q r ≡ true → p r ≡ false)
    → where_rows p (where_rows (λ r. not (q r)) rows) ≡ where_rows p rows
where_rows-delete-miss p q [] h = refl
where_rows-delete-miss p q (x ∷ rows) h = elim (Bool-cases (q x)) [
  | inl e ↦ rw (e, h x e) (where_rows-delete-miss p q rows h)
  | inr e ↦ ground (arith, e, where_rows-delete-miss p q rows h)
]

module _ (P : Prisma) where
  pub find_many-create :
      {Row : Type 0} (p : Row → Bool) (r : Row) (t : P.Table Row)
      → p r ≡ false
      → P.find_many p (P.create r t) ≡ P.find_many p t
  find_many-create p r t h =
      P.find_many_lem p (P.create r t)
      ∙ ap (where_rows p) (P.rows-create r t)
      ∙ where_rows-append-miss p (P.rows t) r h
      ∙ sym (P.find_many_lem p t)

  pub find_many-update :
      {Row : Type 0} (p q : Row → Bool) (f : Row → Row) (t : P.Table Row)
      → ((r : Row) → q r ≡ true → (p r ≡ false) × (p (f r) ≡ false))
      → P.find_many p (P.update_many q f t) ≡ P.find_many p t
  find_many-update p q f t h =
      P.find_many_lem p (P.update_many q f t)
      ∙ ap (where_rows p) (P.rows-update_many q f t)
      ∙ where_rows-update-miss p q f (P.rows t) h
      ∙ sym (P.find_many_lem p t)

  pub find_many-delete :
      {Row : Type 0} (p q : Row → Bool) (t : P.Table Row)
      → ((r : Row) → q r ≡ true → p r ≡ false)
      → P.find_many p (P.delete_many q t) ≡ P.find_many p t
  find_many-delete p q t h =
      P.find_many_lem p (P.delete_many q t)
      ∙ ap (where_rows p) (P.rows-delete_many q t)
      ∙ where_rows-delete-miss p q (P.rows t) h
      ∙ sym (P.find_many_lem p t)

  pub is_some-find_first :
      {Row : Type 0} (p : Row → Bool) (t : P.Table Row)
      → is_some (P.find_first p t) ≡ any p (P.rows t)
  is_some-find_first p t = elim (Option-cases (P.find_first p t)) [
    | inl e ↦ rw e (sym (P.find_first-none p t e))
    | inr (r, e) ↦ let found = P.find_first-some p t r e in rw e (sym (found.1 p found.0))
  ]
