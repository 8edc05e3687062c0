-- ===== src/Auth/Account.antt =====
-- services/auth/src/routes/account.ts: registration, the single-use tokens, and the password. `hash` and `verify` are argon2's and `sha256` node's.
pub mod Once
use devops_lab.Prelude.{
  ℕ, ◌+◌, ◌*◌, ◌-◌, zero, suc, min, Bool, true, false, ◌&&◌, not, Option, none, some, String, List,
  [], ◌∷◌, string_eq, nat_eq, ◌==◌, leb, is_some, take, if◌then◌else◌,
}
use devops_lab.Services.{Prisma, Redis}
use devops_lab.Core.Rows.{LabSession}
use devops_lab.Progress.State.{Completion, Submission}
use devops_lab.Auth.State.{
  Auth, AuthUser, UserSession, SecurityLog, AuthEvent, user_registered, verification_requested,
  reset_requested, user_deleted, AuthKey, AuthValue, user_ref, verify_key, reset_key, exchange_key,
  refresh_key, AuthReply, refused, session_given, success, user_exists, invalid_verification_token,
  invalid_reset_token, exchange_token_invalid, user_not_found, oauth_no_password,
  incorrect_password, session_not_found, token_revoked, server_error, Claims, registered,
  password_reset, logout, logout_all, log_event, usable, has_user_id, password_reset_seconds,
  email_verification_seconds,
}
use devops_lab.Auth.Session.{
  Fresh, sign_access_token, set_session_cookies, invalidate_all_sessions, denylist_access_token,
  is_token_denylisted, parse_refresh_token, revoke_at,
}

-- `writes` is how many of the writes in the transaction succeed before one throws: the clients of
-- packages/db/index.ts run each of them in a transaction of its own, so those before it stay.
pub record RegisterRequest : Type 0 where
  pub email : String
  pub password : String
  pub name : Option String
  pub role : String
  pub new_id : String
  pub verification_token : String
  pub writes : ℕ
  pub fresh : Fresh

-- The caller of a route that verifies the token: its claims, and whether the two reads of Redis
-- answer.
pub record Caller : Type 0 where
  pub claims : Claims
  pub first_answers : Bool
  pub second_answers : Bool
  pub now : ℕ

abbrev pub new_user : RegisterRequest → String → AuthUser
new_user q password_hash = record {
  id = q.new_id;
  email = q.email;
  name = q.name;
  job_title = none;
  password = some password_hash;
  role = q.role;
  email_verified = none;
  mfa_enabled = false;
  mfa_secret = none;
  first_login_at = none;
  last_login_at = none;
}

-- The user whom a token of Redis names; other values do not occur under its keys.
abbrev pub user_of : Option AuthValue → Option String
user_of (some (user_ref u)) = some u
user_of _ = none

module _ (P : Prisma) (R : Redis AuthKey AuthValue) where
  -- The hook of the routes that verify the token.
  abbrev pub guarded : Caller → Auth P R → Auth P R × AuthReply → Auth P R × AuthReply
  guarded c s handled =
      if is_token_denylisted P R c.first_answers c.second_answers c.now (some c.claims.jti)
        (some c.claims.sub) (some c.claims.iat) s
      then (s, refused token_revoked)
      else handled

  -- POST /register
  unfoldable pub register :
      (String → String) → (String → String) → ℕ → RegisterRequest → Auth P R → Auth P R × AuthReply
  unfolding set_session_cookies
  register hash sha256 ttl q s =
      let u = new_user q (hash q.password) in
      let with_user = record s { users = P.create u s.users } in
      let with_event = record with_user { events = P.create (user_registered q.new_id) s.events } in
      let with_mail = record with_user {
        events =
            P.create (verification_requested q.new_id q.verification_token)
              (P.create (user_registered q.new_id) s.events);
      } in
      let written = log_event P R (some q.new_id) registered with_mail in
      let told = record written {
        kv =
            R.set_ex s.kv q.fresh.now (verify_key q.verification_token) (user_ref q.new_id)
              email_verification_seconds;
      } in
      if is_some (P.find_first (λ (x : AuthUser). x.email == q.email) s.users)
      then (s, refused user_exists)
      else (if leb 4 q.writes
          then (
            set_session_cookies P R sha256 ttl q.fresh u told,
            session_given (sign_access_token q.fresh u) q.fresh.secret,
          )
          else (if leb 3 q.writes
              then (with_mail, refused server_error)
              else (if leb 2 q.writes
                  then (with_event, refused server_error)
                  else (if leb 1 q.writes
                      then (with_user, refused server_error)
                      else (s, refused server_error)))))

  abbrev pub verify_email_for : ℕ → String → Option String → Auth P R → Auth P R × AuthReply
  verify_email_for now token none s = (s, refused invalid_verification_token)
  verify_email_for now token (some u) s =
      if is_some (P.find_first (has_user_id u) s.users)
      then (
        record s {
          users =
              P.update_many (has_user_id u)
                (λ (x : AuthUser). record x { email_verified = some now }) s.users;
          kv = R.del s.kv (verify_key token);
        },
        success,
      )
      else (s, refused server_error)

  -- POST /verify-email
  unfoldable pub verify_email : ℕ → String → Auth P R → Auth P R × AuthReply
  verify_email now token s =
      verify_email_for now token (user_of (R.get s.kv now (verify_key token))) s

  -- POST /forgot-password: the reply is the same whether the address is known or not.
  unfoldable pub forgot_password : ℕ → String → String → Auth P R → Auth P R × AuthReply
  forgot_password now email token s =
      elim (P.find_first (λ (u : AuthUser). u.email == email) s.users) [
        | none ↦ (s, success)
        | some u ↦ (
          record s {
            events = P.create (reset_requested u.id token) s.events;
            kv = R.set_ex s.kv now (reset_key token) (user_ref u.id) password_reset_seconds;
          },
          success,
        )
      ]

  -- The two writes of the new password, of which the first throws if the user is gone; if the second
  -- throws, the password is set and the token is not spent.
  unfoldable pub reset_for :
      (String → String) → ℕ → String → String → ℕ → Option String → Auth P R → Auth P R × AuthReply
  unfolding invalidate_all_sessions
  reset_for hash now token password writes none s = (s, refused invalid_reset_token)
  reset_for hash now token password writes (some u) s =
      let changed = record s {
        users =
            P.update_many (has_user_id u)
              (λ (x : AuthUser). record x { password = some (hash password) }) s.users;
      } in
      let written = log_event P R (some u) password_reset changed in
      let spent = record written { kv = R.del s.kv (reset_key token) } in
      if leb 1 writes && is_some (P.find_first (has_user_id u) s.users)
      then (if leb 2 writes
          then (invalidate_all_sessions P R now u spent, success)
          else (changed, refused server_error))
      else (s, refused server_error)

  -- POST /reset-password
  unfoldable pub reset_password :
      (String → String) → ℕ → String → String → ℕ → Auth P R → Auth P R × AuthReply
  unfolding reset_for
  reset_password hash now token password writes s =
      reset_for hash now token password writes (user_of (R.get s.kv now (reset_key token))) s

  -- The user of an exchange; the token is gone already.
  unfoldable pub exchange_for :
      (String → String) → ℕ → Fresh → Option String → Auth P R → Auth P R × AuthReply
  unfolding set_session_cookies
  exchange_for sha256 ttl f none s = (s, refused exchange_token_invalid)
  exchange_for sha256 ttl f (some user_id) s = elim (P.find_first (has_user_id user_id) s.users) [
    | none ↦ (s, refused user_not_found)
    | some u ↦
        (set_session_cookies P R sha256 ttl f u s, session_given (sign_access_token f u) f.secret)
  ]

  -- POST /exchange: `GETDEL`, then the session.
  unfoldable pub exchange : (String → String) → ℕ → Fresh → String → Auth P R → Auth P R × AuthReply
  unfolding exchange_for
  exchange sha256 ttl f token s =
      exchange_for sha256 ttl f (user_of (R.get s.kv f.now (exchange_key token)))
        (record s { kv = R.del s.kv (exchange_key token) })

  abbrev pub change_for :
      (String → String → Bool)
      → (String → String)
      → String
      → String
      → String
      → Option AuthUser
      → Auth P R
      → Auth P R × AuthReply
  change_for verify hash sub current password none s = (s, refused user_not_found)
  change_for verify hash sub current password (some u) s = elim (usable u.password) [
    | none ↦ (s, refused oauth_no_password)
    | some old ↦
        if verify old current
        then (
          record s {
            users =
                P.update_many (has_user_id sub)
                  (λ (x : AuthUser). record x { password = some (hash password) }) s.users;
          },
          success,
        )
        else (s, refused incorrect_password)
  ]

  -- POST /change-password
  unfoldable pub change_password :
      (String → String → Bool)
      → (String → String)
      → Caller
      → String
      → String
      → Auth P R
      → Auth P R × AuthReply
  unfolding is_token_denylisted
  change_password verify hash c current password s = guarded c s (
      change_for verify hash c.claims.sub current password
        (P.find_first (has_user_id c.claims.sub) s.users) s)
