-- ===== src/Auth/Refresh.antt =====
-- services/auth/src/routes/account.ts: POST /refresh, the rotation of refresh tokens.
pub mod Breach
pub mod Tokens
use devops_lab.Prelude.{
  ℕ, ◌+◌, Bool, true, false, Option, none, some, String, List, string_eq, nat_eq, ◌==◌, leb,
  if◌then◌else◌,
}
use devops_lab.Services.{Prisma, Redis}
use devops_lab.Auth.State.{
  Auth, AuthUser, AuthKey, AuthValue, flag, rotated, revoked, user_ref, stamp, refresh_key,
  AuthReply, refused, session_given, refresh_token_missing, session_expired, session_compromised,
  user_not_found, revocation_breach, log_event, has_user_id,
}
use devops_lab.Auth.Session.{
  Fresh, sign_access_token, set_session_cookies, invalidate_all_sessions, parse_refresh_token,
}

pub record RefreshRequest : Type 0 where
  pub cookie : Option (List String)
  pub fresh : Fresh

abbrev pub grace_ms : ℕ
grace_ms = 10000

module _ (P : Prisma) (R : Redis AuthKey AuthValue) (sha256 : String → String) (ttl : ℕ) where
  -- The new session, if the user is still there.
  unfoldable pub renew : Fresh → String → Auth P R → Auth P R × AuthReply
  unfolding set_session_cookies
  renew f user_id s = elim (P.find_first (has_user_id user_id) s.users) [
    | none ↦ (s, refused user_not_found)
    | some u ↦
        (set_session_cookies P R sha256 ttl f u s, session_given (sign_access_token f u) f.secret)
  ]

  -- A token that was rotated: honoured within the grace period, and behind it a breach.
  unfoldable pub reuse_token : Fresh → String → ℕ → Auth P R → Auth P R × AuthReply
  unfolding renew invalidate_all_sessions
  reuse_token f user_id rotated_at s =
      if leb f.now (rotated_at + grace_ms) then renew f user_id s else (
        log_event P R (some user_id) revocation_breach
            (invalidate_all_sessions P R f.now user_id s),
        refused session_compromised,
      )

  -- By what Redis holds for the token: "1" is rotated, the JSON of a rotation is looked at, other
  -- JSON passes, and any other text counts as expired.
  unfoldable pub refresh_by :
      Fresh → String → String → Option AuthValue → Auth P R → Auth P R × AuthReply
  unfolding reuse_token renew
  refresh_by f user_id hash none s = (s, refused session_expired)
  refresh_by f user_id hash (some flag) s =
      renew f user_id
        (record s { kv = R.set_ex s.kv f.now (refresh_key user_id hash) (rotated f.now) ttl })
  refresh_by f user_id hash (some (rotated t)) s = reuse_token f user_id t s
  refresh_by f user_id hash (some revoked) s = (s, refused session_expired)
  refresh_by f user_id hash (some (user_ref u)) s = (s, refused session_expired)
  refresh_by f user_id hash (some (stamp t)) s = renew f user_id s

  abbrev pub refresh_parsed : Fresh → Option (String × String) → Auth P R → Auth P R × AuthReply
  refresh_parsed f none s = (s, refused refresh_token_missing)
  refresh_parsed f (some (user_id, hash)) s =
      refresh_by f user_id hash (R.get s.kv f.now (refresh_key user_id hash)) s

  unfoldable pub refresh : RefreshRequest → Auth P R → Auth P R × AuthReply
  unfolding refresh_by
  refresh q s = refresh_parsed q.fresh (parse_refresh_token sha256 q.cookie) s
