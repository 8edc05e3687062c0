-- ===== src/Auth/Refresh/Breach.antt =====
-- What a revocation of a user means for the next requests, and POST /refresh with an old token.
use devops_lab.Prelude.{
  ℕ, suc, zero, ◌≡◌, ◌≤◌, ◌<◌, ◌+◌, ◌*◌, refl, Bool, true, false, ◌||◌, Option, none, some, String,
  leb, arith,
}
use devops_lab.Services.{Prisma, Redis}
use devops_lab.Auth.State.{
  Auth, AuthKey, AuthValue, refresh_key, revoked_user, stamp, rotated, refused, session_expired,
  session_compromised, revocation_breach, log_event,
}
use devops_lab.Auth.Session.{
  is_token_denylisted, invalidate_all_sessions, parse_refresh_token, is_before, is_user_revoked,
  is_denied,
}
use devops_lab.Auth.Refresh.{RefreshRequest, refresh, refresh_by, reuse_token, grace_ms}
use devops_lab.Auth.Revocation.{invalidate_all_sessions-IsGone, invalidate_all_sessions-marked}

module _ (P : Prisma) (R : Redis AuthKey AuthValue) (sha256 : String → String) (ttl : ℕ) where
  -- The user is locked out: no refresh token is accepted at any time, and for fifteen minutes every
  -- access token that was issued until then is refused, if the read of the mark answers.
  pub record IsRevokedFor (user_id : String) (now : ℕ) (s : Auth P R) : Type 0 where
    pub refresh_refused :
        (q : RefreshRequest) (h : String)
        → parse_refresh_token sha256 q.cookie ≡ some (user_id, h)
        → refresh P R sha256 ttl q s ≡ (s, refused session_expired)
    pub access_refused :
        (answers : Bool) (t iat : ℕ) (jti : Option String)
        → now ≤ t
        → t < now + 900 * 1000
        → iat * 1000 ≤ now
        → is_token_denylisted P R answers true t jti (some user_id) (some iat) s ≡ true

  module _ (user_id : String) (now : ℕ) (s : Auth P R) where
    is_before-stamp : (iat : ℕ) → iat * 1000 ≤ now → is_before (some iat) (some (stamp now)) ≡ true
    is_before-stamp zero h = refl
    is_before-stamp (suc n) h = ground (arith, h)

    or_true : (a b : Bool) → b ≡ true → (a || b) ≡ true
    or_true a b h = ground arith

    -- A state with no refresh token of the user and with the mark.
    pub IsRevokedFor-by :
        ((t : ℕ) (h : String) → R.get s.kv t (refresh_key user_id h) ≡ none)
        → ((t : ℕ)
            → now ≤ t
            → t < now + 900 * 1000
            → R.get s.kv t (revoked_user user_id) ≡ some (stamp now))
        → IsRevokedFor user_id now s
    unfolding refresh is_token_denylisted refresh_by
    IsRevokedFor-by gone mark = record {
      refresh_refused = λ q h e. rw (e, gone q.fresh.now h, refresh, refresh_by) refl;
      access_refused = λ answers t iat jti le lt old.
          or_true (is_denied P R answers t jti s.kv)
            (is_user_revoked P R true t (some user_id) (some iat) s.kv)
            (rw (mark t le lt) (is_before-stamp iat old));
    }

  pub invalidate_all_sessions-IsRevokedFor :
      (user_id : String) (now : ℕ) (s : Auth P R)
      → IsRevokedFor user_id now (invalidate_all_sessions P R now user_id s)
  invalidate_all_sessions-IsRevokedFor user_id now s =
      IsRevokedFor-by user_id now (invalidate_all_sessions P R now user_id s)
        (invalidate_all_sessions-IsGone P R now user_id s)
        (invalidate_all_sessions-marked P R now user_id s)

  -- The use of a token more than ten seconds after its rotation is answered with
  -- session_compromised, and in the state that it leaves every refresh with a token of the user is
  -- refused, whatever the time, and an access token of the user issued until then is taken for
  -- revoked for fifteen minutes, if Redis answers.
  pub refresh-breach :
      (q : RefreshRequest) (user_id h : String) (t : ℕ) (s : Auth P R)
      → parse_refresh_token sha256 q.cookie ≡ some (user_id, h)
      → R.get s.kv q.fresh.now (refresh_key user_id h) ≡ some (rotated t)
      → t + 10000 < q.fresh.now
      → let r = refresh P R sha256 ttl q s in
        (r.1 ≡ refused session_compromised) × IsRevokedFor user_id q.fresh.now r.0
  unfolding refresh refresh_by reuse_token
  refresh-breach q user_id h t s e found late =
      let f = q.fresh in
      let over : leb f.now (t + grace_ms) ≡ false = ground (arith, late) in
      let dead = invalidate_all_sessions P R f.now user_id s in
      rw (e, found, over, refresh, refresh_by, reuse_token)
        (
          refl,
          IsRevokedFor-by user_id f.now (log_event P R (some user_id) revocation_breach dead)
              (invalidate_all_sessions-IsGone P R f.now user_id s)
              (invalidate_all_sessions-marked P R f.now user_id s),
        )
