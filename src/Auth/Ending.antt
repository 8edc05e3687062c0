-- ===== src/Auth/Ending.antt =====
-- services/auth/src/routes/account.ts: the end of sessions and accounts, and the security log.
-- `sha256` is node's.
pub mod Revoke
use devops_lab.Prelude.{
  ℕ, ◌+◌, ◌*◌, ◌-◌, zero, suc, min, Bool, true, false, ◌&&◌, not, Option, none, some, String, List,
  [], ◌∷◌, string_eq, nat_eq, ◌==◌, leb, is_some, take, if◌then◌else◌,
}
use devops_lab.Services.{Prisma, Redis}
use devops_lab.Core.Rows.{LabSession}
use devops_lab.Progress.State.{Completion, Submission}
use devops_lab.Auth.State.{
  Auth, AuthUser, UserSession, SecurityLog, AuthEvent, user_registered, verification_requested,
  reset_requested, user_deleted, AuthKey, AuthValue, user_ref, verify_key, reset_key, exchange_key,
  refresh_key, AuthReply, refused, session_given, success, user_exists, invalid_verification_token,
  invalid_reset_token, exchange_token_invalid, user_not_found, oauth_no_password,
  incorrect_password, session_not_found, token_revoked, server_error, Claims, registered,
  password_reset, logout, logout_all, log_event, usable, has_user_id, password_reset_seconds,
  email_verification_seconds,
}
use devops_lab.Auth.Session.{
  Fresh, sign_access_token, set_session_cookies, invalidate_all_sessions, denylist_access_token,
  is_token_denylisted, parse_refresh_token, revoke_at,
}
use devops_lab.Auth.Account.{Caller, guarded}

-- `page` and `limit` of the security log, `none` if they are not numbers.
abbrev pub page_of : Option ℕ → ℕ
page_of none = 1
page_of (some zero) = 1
page_of (some (suc n)) = suc n

abbrev pub limit_of : Option ℕ → ℕ
limit_of none = 20
limit_of (some zero) = 20
limit_of (some (suc n)) = min (suc n) 100

abbrev pub drop : ℕ → List SecurityLog → List SecurityLog
drop zero rows = rows
drop (suc n) [] = []
drop (suc n) (r ∷ rows) = drop n rows

abbrev pub is_user : Option String → String → Bool
is_user none sub = false
is_user (some u) sub = u == sub

module _ (P : Prisma) (R : Redis AuthKey AuthValue) where
  -- The first `writes` of the six writes of a deletion, each in a transaction of its own: the event,
  -- the logs, the submissions, the completions, the sandboxes' sessions, and the user, with whom the
  -- rows of the sessions go.
  unfoldable pub forget_user : ℕ → String → Auth P R → Auth P R
  forget_user writes sub s = record s {
    events = if leb 1 writes then P.create (user_deleted sub) s.events else s.events;
    logs =
        if leb 2 writes
        then P.delete_many (λ (l : SecurityLog). is_user l.user_id sub) s.logs
        else s.logs;
    submissions =
        if leb 3 writes
        then P.delete_many (λ (x : Submission). x.user_id == sub) s.submissions
        else s.submissions;
    completions =
        if leb 4 writes
        then P.delete_many (λ (x : Completion). x.user_id == sub) s.completions
        else s.completions;
    lab_sessions =
        if leb 5 writes
        then P.delete_many (λ (x : LabSession). x.user_id == sub) s.lab_sessions
        else s.lab_sessions;
    users = if leb 6 writes then P.delete_many (has_user_id sub) s.users else s.users;
    user_sessions =
        if leb 6 writes
        then P.delete_many (λ (x : UserSession). x.user_id == sub) s.user_sessions
        else s.user_sessions;
  }

  -- DELETE /me
  unfoldable pub delete_account : ℕ → Caller → Auth P R → Auth P R × AuthReply
  unfolding is_token_denylisted invalidate_all_sessions denylist_access_token forget_user
  delete_account writes c s =
      let sub = c.claims.sub in
      let gone = forget_user writes sub s in
      guarded P R c s (
        if leb 6 writes
        then (
          denylist_access_token P R c.now (some c.claims.jti)
              (invalidate_all_sessions P R c.now sub gone),
          success,
        )
        else (gone, refused server_error))

  abbrev pub forget_token : Option (String × String) → Auth P R → Auth P R
  forget_token none s = s
  forget_token (some (user_id, h)) s =
      log_event P R (some user_id) logout (record s { kv = R.del s.kv (refresh_key user_id h) })

  -- POST /logout: the token's identifier if it verifies, and the cookie.
  unfoldable pub log_out :
      (String → String) → ℕ → Option String → Option (List String) → Auth P R → Auth P R × AuthReply
  unfolding denylist_access_token
  log_out sha256 now jti cookie s = (
    denylist_access_token P R now jti (forget_token (parse_refresh_token sha256 cookie) s),
    success,
  )

  -- POST /logout-all
  unfoldable pub log_out_all : Caller → Auth P R → Auth P R × AuthReply
  unfolding is_token_denylisted invalidate_all_sessions denylist_access_token
  log_out_all c s = guarded P R c s (
    log_event P R (some c.claims.sub) logout_all (
        denylist_access_token P R c.now (some c.claims.jti)
          (invalidate_all_sessions P R c.now c.claims.sub s)),
    success,
  )

  abbrev pub forget_hash : String → Option String → R.Kv → R.Kv
  forget_hash sub none kv = kv
  forget_hash sub (some h) kv = if h == "" then kv else R.del kv (refresh_key sub h)

  -- POST /sessions/:sessionId/revoke
  unfoldable pub revoke_session : Caller → ℕ → Auth P R → Auth P R × AuthReply
  unfolding is_token_denylisted
  revoke_session c id s =
      guarded P R c s
        (elim (P.find_first
          (λ (r : UserSession).
            r.id == id && (r.user_id == c.claims.sub && not (is_some r.revoked_at)))
          s.user_sessions) [
            | none ↦ (s, refused session_not_found)
            | some r ↦ (
              record s {
                user_sessions =
                    P.update_many (λ (x : UserSession). x.id == r.id) (revoke_at c.now)
                      s.user_sessions;
                kv = forget_hash c.claims.sub r.token_hash s.kv;
              },
              success,
            )
          ])

  -- GET /security-log, over rows that the query orders.
  unfoldable pub security_log : String → Option ℕ → Option ℕ → Auth P R → List SecurityLog × ℕ
  security_log sub page limit s = (
    take (limit_of limit) (
        drop ((page_of page - 1) * limit_of limit)
          (P.find_many (λ (l : SecurityLog). is_user l.user_id sub) s.logs)),
    P.count_rows (λ (l : SecurityLog). is_user l.user_id sub) s.logs,
  )
