-- ===== src/Auth/Revocation.antt =====
-- What `invalidateAllSessions` leaves in Redis.
use devops_lab.Prelude.{
  ℕ, ◌≡◌, ◌≢◌, ◌≤◌, ◌<◌, ◌+◌, ◌*◌, refl, Bool, true, false, none, some, String, List, [], ◌∷◌,
  string_eq, ◌==◌, any, arith, Bool-cases, Option-cases, inl, inr, All, eq_self, ltb, ◌∙◌, subst,
}
use devops_lab.Services.{Prisma, Redis}
use devops_lab.Auth.State.{
  Auth, AuthKey, AuthValue, refresh_key, revoked_user, stamp, AuthKey-discrete,
}
use devops_lab.Auth.Session.{is_refresh_of, del_batch, del_batches, invalidate_all_sessions}

-- The test for one key.
abbrev is_key : AuthKey → AuthKey → Bool
is_key k j = elim (AuthKey-discrete k j) [ yes _ ↦ true | no _ ↦ false ]

is_key_self : (k : AuthKey) → is_key k k ≡ true
is_key_self k =
    elim (AuthKey-discrete k k) as (λ d. elim d [ yes _ ↦ true | no _ ↦ false ] ≡ true) [
      | yes _ ↦ refl
      | no h ↦ absurd (h refl)
    ]

is_key-ne : (k j : AuthKey) → k ≢ j → is_key k j ≡ false
is_key-ne k j n =
    elim (AuthKey-discrete k j) as (λ d. elim d [ yes _ ↦ true | no _ ↦ false ] ≡ false) [
      | yes e ↦ absurd (n e)
      | no h ↦ refl
    ]

module _ (P : Prisma) (R : Redis AuthKey AuthValue) (now : ℕ) (k : AuthKey) where
  abbrev IsGone : R.Kv → Type 0
  IsGone kv = R.get kv now k ≡ none

  del-IsGone : (j : AuthKey) (kv : R.Kv) → IsGone kv → IsGone (R.del kv j)
  del-IsGone j kv h = elim (AuthKey-discrete k j) [
    | yes e ↦ subst (λ x. R.get (R.del kv x) now k ≡ none) e (R.get-del_self kv now k)
    | no n ↦ R.get-del_ne kv now k j n ∙ h
  ]

  -- A deletion of a batch with the key, or of one without it, from a state where it is gone.
  del_batch-IsGone : (ks : List AuthKey) (kv : R.Kv) → IsGone kv → IsGone (del_batch P R ks kv)
  unfolding del_batch
  del_batch-IsGone [] kv h = h
  del_batch-IsGone (j ∷ ks) kv h = del_batch-IsGone ks (R.del kv j) (del-IsGone j kv h)

  del_batch-hits :
      (ks : List AuthKey) (kv : R.Kv) → any (is_key k) ks ≡ true → IsGone (del_batch P R ks kv)
  unfolding del_batch
  del_batch-hits [] kv h = cc
  del_batch-hits (j ∷ ks) kv h = elim (AuthKey-discrete k j) [
    | yes e ↦
        del_batch-IsGone ks (R.del kv j)
          (subst (λ x. R.get (R.del kv x) now k ≡ none) e (R.get-del_self kv now k))
    | no n ↦ del_batch-hits ks (R.del kv j) (ground (arith, is_key-ne k j n, h))
  ]

  del_batches-IsGone :
      (bs : List (List AuthKey)) (kv : R.Kv) → IsGone kv → IsGone (del_batches P R bs kv)
  unfolding del_batches
  del_batches-IsGone [] kv h = h
  del_batches-IsGone (b ∷ bs) kv h =
      del_batches-IsGone bs (del_batch P R b kv) (del_batch-IsGone b kv h)

  del_batches-hits :
      (bs : List (List AuthKey)) (kv : R.Kv)
      → any (any (is_key k)) bs ≡ true
      → IsGone (del_batches P R bs kv)
  unfolding del_batches
  del_batches-hits [] kv h = cc
  del_batches-hits (b ∷ bs) kv h = elim (Bool-cases (any (is_key k) b)) [
    | inl e ↦ del_batches-IsGone bs (del_batch P R b kv) (del_batch-hits b kv e)
    | inr e ↦ del_batches-hits bs (del_batch P R b kv) (ground (arith, e, h))
  ]

  -- The loop over a scan leaves no key that matches.
  scan-IsGone :
      (p : AuthKey → Bool) (kv : R.Kv) → p k ≡ true → IsGone (del_batches P R (R.scan kv p) kv)
  scan-IsGone p kv h = elim (Option-cases (R.get kv now k)) [
    | inl e ↦ del_batches-IsGone (R.scan kv p) kv e
    | inr (v, e) ↦
        del_batches-hits (R.scan kv p) kv
          (R.scan_all kv p now k h (rw e refl) (is_key k) (is_key_self k))
  ]

  del_batch-keeps :
      (p : AuthKey → Bool) (ks : List AuthKey) (kv : R.Kv)
      → p k ≡ false
      → All (λ j. p j ≡ true) ks
      → R.get (del_batch P R ks kv) now k ≡ R.get kv now k
  unfolding del_batch
  del_batch-keeps p [] kv miss h = refl
  del_batch-keeps p (j ∷ ks) kv miss h =
      del_batch-keeps p ks (R.del kv j) miss h.1
      ∙ R.get-del_ne kv now k j (λ e. absurd (ground (arith, subst (λ x. p x ≡ false) e miss, h.0)))

  del_batches-keeps :
      (p : AuthKey → Bool) (bs : List (List AuthKey)) (kv : R.Kv)
      → p k ≡ false
      → All (All (λ j. p j ≡ true)) bs
      → R.get (del_batches P R bs kv) now k ≡ R.get kv now k
  unfolding del_batches
  del_batches-keeps p [] kv miss h = refl
  del_batches-keeps p (b ∷ bs) kv miss h =
      del_batches-keeps p bs (del_batch P R b kv) miss h.1 ∙ del_batch-keeps p b kv miss h.0

module _ (P : Prisma) (R : Redis AuthKey AuthValue) (now : ℕ) (user_id : String)
    (s : Auth P R) where
  -- No refresh token of the user is left, at any time.
  pub invalidate_all_sessions-IsGone :
      (t : ℕ) (h : String)
      → R.get (invalidate_all_sessions P R now user_id s).kv t (refresh_key user_id h) ≡ none
  unfolding invalidate_all_sessions
  invalidate_all_sessions-IsGone t h =
      scan-IsGone P R t (refresh_key user_id h) (is_refresh_of user_id)
        (R.set_ex s.kv now (revoked_user user_id) (stamp now) 900) (eq_self user_id)

  -- For fifteen minutes the mark of the revocation is there.
  pub invalidate_all_sessions-marked :
      (t : ℕ)
      → now ≤ t
      → t < now + 900 * 1000
      → R.get (invalidate_all_sessions P R now user_id s).kv t (revoked_user user_id)
        ≡ some (stamp now)
  unfolding invalidate_all_sessions
  invalidate_all_sessions-marked t le lt =
      let marked = R.set_ex s.kv now (revoked_user user_id) (stamp now) 900 in
      let in_time : ltb t (now + 900 * 1000) ≡ true = ground (arith, lt) in
      del_batches-keeps P R t (revoked_user user_id) (is_refresh_of user_id)
        (R.scan marked (is_refresh_of user_id)) marked refl
        (R.scan_only marked (is_refresh_of user_id))
      ∙ R.get-set_ex_self s.kv now t (revoked_user user_id) (stamp now) 900 le
      ∙ rw in_time refl

  -- Every key but the user's tokens and the mark is left as it is.
  pub invalidate_all_sessions-keeps :
      (t : ℕ) (k : AuthKey)
      → is_refresh_of user_id k ≡ false
      → k ≢ revoked_user user_id
      → R.get (invalidate_all_sessions P R now user_id s).kv t k ≡ R.get s.kv t k
  unfolding invalidate_all_sessions
  invalidate_all_sessions-keeps t k miss ne =
      let marked = R.set_ex s.kv now (revoked_user user_id) (stamp now) 900 in
      del_batches-keeps P R t k (is_refresh_of user_id) (R.scan marked (is_refresh_of user_id))
        marked miss (R.scan_only marked (is_refresh_of user_id))
      ∙ R.get-set_ex_ne s.kv now t k (revoked_user user_id) (stamp now) 900 ne

  pub invalidate_all_sessions-others :
      (t : ℕ) (other h : String)
      → (other == user_id) ≡ false
      → R.get (invalidate_all_sessions P R now user_id s).kv t (refresh_key other h)
        ≡ R.get s.kv t (refresh_key other h)
  invalidate_all_sessions-others t other h miss =
      invalidate_all_sessions-keeps t (refresh_key other h) miss (λ e. cc)
