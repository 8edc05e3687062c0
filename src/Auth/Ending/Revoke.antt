-- ===== src/Auth/Ending/Revoke.antt =====
-- POST /sessions/:sessionId/revoke for a session whose token was renewed by POST /refresh.
use devops_lab.Prelude.{
  ℕ, ◌≡◌, ◌≢◌, ◌≤◌, ◌<◌, ◌+◌, ◌*◌, refl, Bool, true, false, ◌&&◌, not, Option, none, some, String,
  string_eq, nat_eq, ◌==◌, arith, Bool-cases, inl, inr, is_some, ◌∙◌, ap, sym, ltb, eq_of_beq,
}
use devops_lab.Services.{Prisma, Redis}
use devops_lab.Auth.State.{
  Auth, AuthUser, UserSession, AuthKey, AuthValue, refresh_key, flag, rotated, success, has_user_id,
}
use devops_lab.Auth.Session.{set_session_cookies, is_token_denylisted, parse_refresh_token}
use devops_lab.Auth.Account.{Caller}
use devops_lab.Auth.Ending.{revoke_session, forget_hash}
use devops_lab.Auth.Refresh.{RefreshRequest, refresh, refresh_by, renew}

-- The query of the route: the caller's own session, not yet revoked.
abbrev pub is_own : Caller → ℕ → UserSession → Bool
is_own c id r = r.id == id && (r.user_id == c.claims.sub && not (is_some r.revoked_at))

module _ (P : Prisma) (R : Redis AuthKey AuthValue) (sha256 : String → String) (ttl : ℕ) where
  forget_hash-keeps :
      (u : String) (o : Option String) (t : ℕ) (h : String) (kv : R.Kv)
      → o ≢ some h
      → R.get (forget_hash P R u o kv) t (refresh_key u h) ≡ R.get kv t (refresh_key u h)
  forget_hash-keeps u none t h kv ne = refl
  forget_hash-keeps u (some old) t h kv ne = elim (Bool-cases (old == "")) [
    | inl e ↦ rw e refl
    | inr e ↦
        rw e (
          R.get-del_ne kv t (refresh_key u h) (refresh_key u old)
            (λ p. ne (sym (ap hash_option p))))
  ]
    where
      hash_option : AuthKey → Option String
      hash_option (refresh_key x y) = some y
      hash_option _ = none

  -- A revocation that is carried out leaves the tokens of every other hash.
  revoke_session-keeps :
      (c : Caller) (id : ℕ) (r : UserSession) (t : ℕ) (h : String) (s : Auth P R)
      → is_token_denylisted P R c.first_answers c.second_answers c.now
          (some c.claims.jti)
          (some c.claims.sub)
          (some c.claims.iat)
          s
        ≡ false
      → P.find_first (is_own c id) s.user_sessions ≡ some r
      → r.token_hash ≢ some h
      → let done = revoke_session P R c id s in
        (done.1 ≡ success)
        × (R.get done.0.kv t (refresh_key c.claims.sub h)
            ≡ R.get s.kv t (refresh_key c.claims.sub h))
  unfolding revoke_session
  revoke_session-keeps c id r t h s ok e ne =
      rw (ok, e, revoke_session) (refl, forget_hash-keeps c.claims.sub r.token_hash t h s.kv ne)

  -- A refresh with a live token: the new one is live, and no session's row is written.
  refresh-live :
      (q : RefreshRequest) (u h : String) (x : AuthUser) (s : Auth P R)
      → parse_refresh_token sha256 q.cookie ≡ some (u, h)
      → R.get s.kv q.fresh.now (refresh_key u h) ≡ some flag
      → P.find_first (has_user_id u) s.users ≡ some x
      → let s' = (refresh P R sha256 ttl q s).0 in
        (s'.user_sessions ≡ s.user_sessions)
        × ((t : ℕ)
            → q.fresh.now ≤ t
            → t < q.fresh.now + ttl * 1000
            → R.get s'.kv t (refresh_key u (sha256 q.fresh.secret)) ≡ some flag)
  unfolding refresh refresh_by renew set_session_cookies
  refresh-live q u h x s e found user =
      let own : x.id ≡ u = eq_of_beq x.id u (P.find_first-some (has_user_id u) s.users x user).0 in
      let f = q.fresh in
      let used = R.set_ex s.kv f.now (refresh_key u h) (rotated f.now) ttl in
      rw (e, found, user, own, refresh, refresh_by, renew)
        (
          refl,
          λ t le lt.
              let in_time : ltb t (f.now + ttl * 1000) ≡ true = ground (arith, lt) in
              R.get-set_ex_self used f.now t (refresh_key u (sha256 f.secret)) flag ttl le
              ∙ rw in_time refl,
        )

  -- If a live token was refreshed for a known user and the access token of the revocation is not
  -- denied, revoking a session of the same user whose row has another hash than the renewed token
  -- succeeds and leaves the renewed token live until its lifetime ends.
  pub revoke_session-renewed :
      (q : RefreshRequest) (c : Caller) (id t : ℕ) (h : String) (x : AuthUser) (r : UserSession)
      (s : Auth P R)
      → parse_refresh_token sha256 q.cookie ≡ some (c.claims.sub, h)
      → R.get s.kv q.fresh.now (refresh_key c.claims.sub h) ≡ some flag
      → P.find_first (has_user_id c.claims.sub) s.users ≡ some x
      → P.find_first (is_own c id) s.user_sessions ≡ some r
      → r.token_hash ≢ some (sha256 q.fresh.secret)
      → is_token_denylisted P R c.first_answers c.second_answers c.now
          (some c.claims.jti)
          (some c.claims.sub)
          (some c.claims.iat)
          (refresh P R sha256 ttl q s).0
        ≡ false
      → q.fresh.now ≤ t
      → t < q.fresh.now + ttl * 1000
      → let done = revoke_session P R c id (refresh P R sha256 ttl q s).0 in
        (done.1 ≡ success)
        × (R.get done.0.kv t (refresh_key c.claims.sub (sha256 q.fresh.secret)) ≡ some flag)
  revoke_session-renewed q c id t h x r s e found user row ne ok le lt =
      let s' = (refresh P R sha256 ttl q s).0 in
      let live = refresh-live q c.claims.sub h x s e found user in
      let same : P.find_first (is_own c id) s'.user_sessions ≡ some r =
        ap (P.find_first (is_own c id)) live.0 ∙ row in
      let kept = revoke_session-keeps c id r t (sha256 q.fresh.secret) s' ok same ne in
      (kept.0, kept.1 ∙ live.1 t le lt)
