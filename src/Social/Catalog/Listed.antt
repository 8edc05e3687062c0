-- ===== src/Social/Catalog/Listed.antt =====
-- services/core/src/modules/challenge/challenge.routes.ts: the challenges that one is shown and
-- those that one may open.
use devops_lab.Prelude.{
  ℕ, ◌+◌, ◌≤◌, ◌≡◌, refl, sym, ap, ◌∙◌, Bool, true, false, ◌&&◌, not, inl, inr, Option, none, some,
  String, Bool-cases, Option-cases, List, any, count, arith, nat_eq, where_rows, [], ◌∷◌, any-count,
  if◌then◌else◌,
}
use devops_lab.Services.{Prisma}
use devops_lab.Social.State.{Social, ChallengePage, is_page}
use devops_lab.Social.Catalog.{
  is_foreign, is_listed, viewer_org, list_challenges, get_challenge, challenge_view, CatalogReply,
  catalog_refused, other_organization,
}

abbrev pub is_view : CatalogReply → Bool
is_view (challenge_view c) = true
is_view _ = false

foreign_by :
    (owner org : Option ℕ) (c : ChallengePage)
    → c.contributed_by_org_id ≡ owner
    → is_foreign org c ≡ not (is_listed org c)
foreign_by none org c e = rw e refl
foreign_by (some o) none c e = rw e refl
foreign_by (some o) (some g) c e = rw e refl

shown :
    (org : Option ℕ) (c : ChallengePage)
    → is_view (if is_foreign org c then catalog_refused other_organization else challenge_view c)
      ≡ is_listed org c
shown org c = elim (Bool-cases (is_listed org c)) [
  | inl e ↦ rw (foreign_by c.contributed_by_org_id org c refl, e) refl
  | inr e ↦ rw (foreign_by c.contributed_by_org_id org c refl, e) refl
]

any-where :
    {Row : Type 0} (q p : Row → Bool) (rows : List Row)
    → any q (where_rows p rows) ≡ any (λ r. q r && p r) rows
any-where q p [] = refl
any-where q p (r ∷ rows) = ground (arith, any-where q p rows)

any-and :
    {Row : Type 0} (p q : Row → Bool) (rows : List Row)
    → any p rows ≡ false
    → any (λ r. p r && q r) rows ≡ false
any-and p q [] h = refl
any-and p q (r ∷ rows) h = ground (arith, any-and p q rows)

count-split :
    {Row : Type 0} (p q : Row → Bool) (rows : List Row)
    → count (λ r. p r && q r) rows + count (λ r. p r && not (q r)) rows ≡ count p rows
count-split p q [] = refl
count-split p q (r ∷ rows) = ground (arith, count-split p q rows)

module _ (P : Prisma) where
  -- The only row that a test finds decides what holds of such rows.
  pub only-any :
      {Row : Type 0} (p q : Row → Bool) (t : P.Table Row) (c : Row)
      → count p (P.rows t) ≤ 1
      → P.find_first p t ≡ some c
      → any (λ r. p r && q r) (P.rows t) ≡ q c
  only-any {Row} p q t c single e =
      let found = P.find_first-some p t c e in
      let both = λ (r : Row). p r && q r in
      let left = λ (r : Row). p r && not (q r) in
      elim (Bool-cases (q c)) [
        | inl hit ↦ found.1 both (ground (arith, found.0, hit)) ∙ sym hit
        | inr miss ↦ elim (Bool-cases (any both (P.rows t))) [
          | inl more ↦
              let here = found.1 left (ground (arith, found.0, miss)) in
              absurd (
                omega (
                  arith,
                  any-count both (P.rows t) more,
                  any-count left (P.rows t) here,
                  count-split p q (P.rows t),
                  single,
                ))
          | inr e' ↦ e' ∙ sym miss
        ]
      ]

  -- If the database's order keeps the rows and at most one challenge has the identifier, a
  -- challenge is shown to a caller just if it is in the list of challenges that the same caller
  -- gets.
  pub get_challenge-listed :
      (by_age : List ChallengePage → List ChallengePage) (id : ℕ) (viewer : Option String)
      (s : Social P)
      → ((q : ChallengePage → Bool) (l : List ChallengePage) → any q (by_age l) ≡ any q l)
      → count (is_page id) (P.rows s.challenges) ≤ 1
      → is_view (get_challenge P id viewer s) ≡ any (is_page id) (list_challenges P by_age viewer s)
  unfolding get_challenge list_challenges
  get_challenge-listed by_age id viewer s aged single =
      let org = viewer_org P viewer s in
      let p = is_listed org in
      let listed =
        aged (is_page id) (P.find_many p s.challenges)
        ∙ ap (any (is_page id)) (P.find_many_lem p s.challenges)
        ∙ any-where (is_page id) p (P.rows s.challenges) in
      elim (Option-cases (P.find_first (is_page id) s.challenges)) [
        | inl e ↦
            rw (e, is_view, get_challenge, listed)
              (sym (
                any-and (is_page id) p (P.rows s.challenges)
                  (P.find_first-none (is_page id) s.challenges e)))
        | inr (c, e) ↦
            rw (e, is_view, get_challenge, listed, only-any (is_page id) p s.challenges c single e)
              (shown org c)
      ]
