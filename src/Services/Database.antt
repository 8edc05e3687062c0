-- ===== src/Services/Database.antt =====
-- The Prisma client: tables of rows, read and written by the queries of the code. Several
-- writes are their composition.
use devops_lab.Prelude.{
  ℕ, ◌≡◌, Bool, true, false, Option, none, some, List, [], ◌∷◌, ◌++◌, not, any, count, where_rows,
  update_where,
}

pub record Prisma : Type 1 where
  pub Table : Type 0 → Type 0
  -- What a table holds, in the order of insertion.
  pub rows : {Row : Type 0} → Table Row → List Row
  pub find_first : {Row : Type 0} → (Row → Bool) → Table Row → Option Row
  pub find_many : {Row : Type 0} → (Row → Bool) → Table Row → List Row
  pub count_rows : {Row : Type 0} → (Row → Bool) → Table Row → ℕ
  pub create : {Row : Type 0} → Row → Table Row → Table Row
  pub update_many : {Row : Type 0} → (Row → Bool) → (Row → Row) → Table Row → Table Row
  pub delete_many : {Row : Type 0} → (Row → Bool) → Table Row → Table Row
  -- `findFirst` and `findUnique` return a matching row of the table, or `null` if there is none.
  pub find_first-some :
      {Row : Type 0} (p : Row → Bool) (t : Table Row) (r : Row)
      → find_first p t ≡ some r
      → (p r ≡ true) × ((q : Row → Bool) → q r ≡ true → any q (rows t) ≡ true)
  pub find_first-none :
      {Row : Type 0} (p : Row → Bool) (t : Table Row)
      → find_first p t ≡ none
      → any p (rows t) ≡ false
  pub find_many_lem :
      {Row : Type 0} (p : Row → Bool) (t : Table Row) → find_many p t ≡ where_rows p (rows t)
  pub count_rows_lem :
      {Row : Type 0} (p : Row → Bool) (t : Table Row) → count_rows p t ≡ count p (rows t)
  pub rows-create : {Row : Type 0} (r : Row) (t : Table Row) → rows (create r t) ≡ rows t ++ r ∷ []
  pub rows-update_many :
      {Row : Type 0} (p : Row → Bool) (f : Row → Row) (t : Table Row)
      → rows (update_many p f t) ≡ update_where p f (rows t)
  pub rows-delete_many :
      {Row : Type 0} (p : Row → Bool) (t : Table Row)
      → rows (delete_many p t) ≡ where_rows (λ r. not (p r)) (rows t)
