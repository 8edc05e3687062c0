-- ===== src/Social/Toggles/Marks.antt =====
-- services/core/src/modules/challenge/challenge.routes.ts: what a like changes.
use devops_lab.Prelude.{
  ℕ, ◌+◌, ◌≤◌, ◌≡◌, refl, sym, ap, ◌∙◌, Bool, true, false, not, ◌&&◌, inl, inr, some, String,
  string_eq, nat_eq, ◌==◌, eq_of_beq, eq_self, Bool-cases, List, any, count, if◌then◌else◌, arith,
  subst,
}
use devops_lab.Services.{Prisma, is_some-find_first}
use devops_lab.Social.State.{Social, Mark, is_page, is_mark, is_mark_of}
use devops_lab.Social.Toggles.{Writes, toggle, like, interactions, liked_reply}
use devops_lab.Social.Toggles.Rows.{
  toggled_rows, any-toggled, any-toggled-other, count-toggled, single-toggled,
}

abbrev pub both_return : Writes
both_return = record { written = true; recounted = true }

module _ (P : Prisma) where
  -- No challenge is liked twice by a user (`@@unique([challengeId, userId])`).
  abbrev pub IsSingle : P.Table Mark → Type 0
  IsSingle t = (id : ℕ) (user_id : String) → count (is_mark id user_id) (P.rows t) ≤ 1

  pub rows-toggle :
      {Row : Type 0} (p : Row → Bool) (row : Row) (t : P.Table Row)
      → P.rows (toggle P p row t).0 ≡ toggled_rows p row (P.rows t)
  unfolding toggle
  rows-toggle p row t = elim (Bool-cases (any p (P.rows t))) [
    | inl e ↦ rw (is_some-find_first P p t, e) (P.rows-delete_many p t)
    | inr e ↦ rw (is_some-find_first P p t, e) (P.rows-create row t)
  ]

  pub flag-toggle :
      {Row : Type 0} (p : Row → Bool) (row : Row) (t : P.Table Row)
      → (toggle P p row t).1 ≡ not (any p (P.rows t))
  unfolding toggle
  flag-toggle p row t = elim (Bool-cases (any p (P.rows t))) [
    | inl e ↦ rw (is_some-find_first P p t, e) refl
    | inr e ↦ rw (is_some-find_first P p t, e) refl
  ]

  -- Two marks with the same keys are found by the same test.
  same_mark :
      (c id : ℕ) (v u : String)
      → (id == c && u == v) ≡ true
      → (b : List Mark) → any (is_mark id u) b ≡ false
      → any (is_mark c v) b ≡ false
  same_mark c id v u e b h =
      subst (λ x. any (is_mark x v) b ≡ false) (eq_of_beq id c (ground (arith, e)))
        (subst (λ x. any (is_mark id x) b ≡ false) (eq_of_beq u v (ground (arith, e))) h)

  other_mark :
      (c id : ℕ) (v u : String)
      → (id == c && u == v) ≡ false
      → (r : Mark) → is_mark id u r ≡ true
      → is_mark c v r ≡ false
  other_mark c id v u e r h =
      let i = eq_of_beq r.challenge_id id (ground (arith, h)) in
      let j = eq_of_beq r.user_id u (ground (arith, h)) in rw (i, j) e

  -- If the challenge exists, no user likes a challenge twice and the database answers, a like is
  -- answered with what the user's interactions then show: the flag is the opposite of before, the
  -- likes are one more or one less, the bookmark is as before, no user likes twice, and the flags
  -- of every other user or challenge are as before.
  pub like-interactions :
      (id : ℕ) (user_id : String) (s : Social P)
      → any (is_page id) (P.rows s.challenges) ≡ true
      → IsSingle s.likes
      → let s' = (like P id user_id both_return s).0 in
        let before = interactions P id (some user_id) s in
        let after = interactions P id (some user_id) s' in
        ((like P id user_id both_return s).1 ≡ liked_reply after.0 after.1)
        × (after.1 ≡ not before.1)
        × (after.0 + (if before.1 then 1 else 0) ≡ before.0 + (if before.1 then 0 else 1))
        × (after.2 ≡ before.2)
        × IsSingle s'.likes
        × ((c : ℕ) (v : String)
            → (id == c && user_id == v) ≡ false
            → (interactions P c (some v) s').1 ≡ (interactions P c (some v) s).1)
  unfolding like interactions
  like-interactions id user_id s page single =
      let row : Mark = record { challenge_id = id; user_id = user_id } in
      let p = is_mark id user_id in
      let t = P.rows s.likes in
      let hit : p row ≡ true = ground (arith, eq_self id, eq_self user_id) in
      let left = rows-toggle p row s.likes in
      let likes' = (toggle P p row s.likes).0 in
      let was = is_some-find_first P p s.likes in
      let now = is_some-find_first P p likes' ∙ ap (any p) left ∙ any-toggled p row t hit in
      let counted =
        count-toggled p (is_mark_of id) row t (eq_self id) (λ r h. ground (arith, h))
          (single id user_id) in
      let total = P.count_rows_lem (is_mark_of id) likes' ∙ ap (count (is_mark_of id)) left in
      let total_was = P.count_rows_lem (is_mark_of id) s.likes in
      rw (is_some-find_first P (is_page id) s.challenges, page)
        (
          rw (flag-toggle p row s.likes, now) refl,
          rw (now, was) refl,
          rw (total, total_was, was) counted,
          refl,
          λ c v. rw left (
              single-toggled p (is_mark c v) row t (λ e. same_mark c id v user_id e t)
                (single c v)),
          λ c v e.
              is_some-find_first P (is_mark c v) likes'
              ∙ ap (any (is_mark c v)) left
              ∙ any-toggled-other p (is_mark c v) row t e (other_mark c id v user_id e)
              ∙ sym (is_some-find_first P (is_mark c v) s.likes),
        )
