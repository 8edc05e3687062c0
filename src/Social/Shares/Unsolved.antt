-- ===== src/Social/Shares/Unsolved.antt =====
-- services/core/src/modules/social/share.routes.ts: what a token vouches for.
use devops_lab.Prelude.{
  ℕ, suc, ◌≤◌, ◌≡◌, refl, sym, ap, ◌∙◌, Bool, true, false, ◌&&◌, none, some, String, string_eq,
  nat_eq, ◌==◌, List, any, count, arith, inl, inr, Option-cases, where_rows, eq_self, [], ◌∷◌, ◌++◌,
  any-append, count-append, count-any,
}
use devops_lab.Services.{Prisma, is_some-find_first}
use devops_lab.Progress.State.{Completion, is_completion}
use devops_lab.Social.State.{Social, is_page, is_social_user}
use devops_lab.Social.Catalog.Listed.{only-any}
use devops_lab.Social.Shares.{
  ShareToken, CreateShare, verified, has_share_token, is_check_of, new_share, share_facts,
  share_created, share_for, create_share, get_share,
}

module _ {Metadata : Type 0} where
  -- The token is of the user and the challenge, completed at the time, with no check.
  abbrev pub is_sealed : String → ℕ → ℕ → ShareToken Metadata → Bool
  is_sealed user_id id now r =
      r.user_id == user_id
      && (elim r.challenge_id [ none ↦ false | some c ↦ c == id ] && elim r.facts [
        | none ↦ false
        | some f ↦ f.completed_at == now && elim f.verified_checks [ [] ↦ true | ◌∷◌ c cs ↦ false ]
      ])

  any-last :
      (p q : ShareToken Metadata → Bool) (rows : List (ShareToken Metadata))
      (r : ShareToken Metadata)
      → any p rows ≡ false
      → p r ≡ true
      → any (λ x. p x && q x) (rows ++ r ∷ []) ≡ q r
  any-last p q [] r h e = ground (arith, e)
  any-last p q (x ∷ rows) r h e = ground (arith, h, any-last p q rows r (ground (arith, h)) e)

where-none :
    {Row : Type 0} (p : Row → Bool) (rows : List Row) → any p rows ≡ false → where_rows p rows ≡ []
where-none p [] h = refl
where-none p (x ∷ rows) h = ground (arith, h, where-none p rows (ground (arith, h)))

module _ (P : Prisma) {Metadata : Type 0} (completed_at : Completion → ℕ) where
  new_share-sealed :
      (user_id : String) (id : ℕ) (q : CreateShare Metadata) (s : Social P)
      → any (is_completion user_id id) (P.rows s.completions) ≡ false
      → any (is_check_of user_id id) (P.rows s.check_results) ≡ false
      → q.challenge_id ≡ some id
      → is_sealed user_id id q.now
          (new_share user_id q (some (share_facts P completed_at user_id id q.now s)))
        ≡ true
  new_share-sealed user_id id q s unsolved unchecked named =
      let no_checks =
        P.find_many_lem (is_check_of user_id id) s.check_results
        ∙ where-none (is_check_of user_id id) (P.rows s.check_results) unchecked in
      elim (Option-cases (P.find_first (is_completion user_id id) s.completions)) [
        | inl e ↦ rw (eq_self user_id, named, e, no_checks, eq_self id, eq_self q.now) refl
        | inr (c, e) ↦
            let found = is_some-find_first P (is_completion user_id id) s.completions in
            absurd (ground (arith, rw e at found, unsolved))
      ]

  -- A row that is created under a new key is the one that is found.
  find-created :
      (p q : ShareToken Metadata → Bool) (row : ShareToken Metadata)
      (t : P.Table (ShareToken Metadata))
      → any p (P.rows t) ≡ false
      → p row ≡ true
      → q row ≡ true
      → (r : ShareToken Metadata) × (P.find_first p (P.create row t) ≡ some r) × (q r ≡ true)
  find-created p q row t fresh hit good =
      let t' = P.create row t in
      let left = P.rows-create row t in
      let single : count p (P.rows t') ≤ 1 =
        rw left (
          ground
            (arith, count-append p (P.rows t) (row ∷ []), hit, count-any p (P.rows t) fresh)) in
      elim (Option-cases (P.find_first p t')) [
        | inl e ↦
            let missed = P.find_first-none p t' e in
            absurd (ground (arith, rw left at missed, any-append p (P.rows t) (row ∷ []), hit))
        | inr (r, e) ↦ (
          r,
          e,
          sym (only-any P p q t' r single e)
              ∙ ap (any (λ x. p x && q x)) left
              ∙ any-last p q (P.rows t) row fresh hit
              ∙ good,
        )
      ]

  -- A known user with neither a completion nor a check's result for an existing challenge gets a
  -- share of it under a new token, if the write succeeds, and everybody who opens the token is
  -- shown a verified record of that user and challenge, completed at the time of the request, with
  -- no check.
  pub get_share-unsolved :
      (user_id : String) (id : ℕ) (q : CreateShare Metadata) (s : Social P)
      (t : P.Table (ShareToken Metadata)) (viewed : Bool)
      → any (is_social_user user_id) (P.rows s.users) ≡ true
      → any (is_page id) (P.rows s.challenges) ≡ true
      → any (is_completion user_id id) (P.rows s.completions) ≡ false
      → any (is_check_of user_id id) (P.rows s.check_results) ≡ false
      → any (has_share_token q.new_token) (P.rows t) ≡ false
      → q.challenge_id ≡ some id
      → q.written ≡ true
      → let created = create_share P completed_at (some user_id) q s t in
        (r : ShareToken Metadata) × ((get_share P q.new_token viewed created.0).1 ≡ verified r)
        × (is_sealed user_id id q.now r ≡ true)
  unfolding create_share get_share
  get_share-unsolved user_id id q s t viewed known page unsolved unchecked fresh named written =
      let row = new_share user_id q (some (share_facts P completed_at user_id id q.now s)) in
      let stored : share_for P completed_at user_id q.challenge_id q s t
          ≡ (P.create row t, share_created q.new_token q.share_type) =
        rw (named, share_for, is_some-find_first P (is_page id) s.challenges, page, written) refl in
      let (r, e, good) =
        find-created (has_share_token q.new_token) (is_sealed user_id id q.now) row t fresh
          (eq_self q.new_token) (new_share-sealed user_id id q s unsolved unchecked named) in
      rw (is_some-find_first P (is_social_user user_id) s.users, known, stored, get_share, e)
        (record r { views = suc r.views }, refl, good)
