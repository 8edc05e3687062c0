-- ===== src/Auth/Login.antt =====
-- services/auth/src/routes/account.ts: POST /login with its lockout, and
-- services/auth/src/routes/mfa.ts. `verify` is argon2's, `check_code` otplib's and `sha256` node's.
pub mod Lockout
use devops_lab.Prelude.{
  ℕ, Bool, true, false, ◌&&◌, Option, none, some, String, string_eq, nat_eq, ◌==◌, leb, is_some,
  if◌then◌else◌,
}
use devops_lab.Services.{Prisma, Redis}
use devops_lab.Auth.State.{
  Auth, AuthUser, AuthKey, AuthValue, fails, lockout, flag, AuthReply, refused, session_given,
  mfa_required, success, account_locked, invalid_credentials, server_error, mfa_already_enabled,
  mfa_not_initialized, invalid_mfa_code, invalid_mfa_token, mfa_setup_incomplete, lockout_hit,
  login_failed, login_success, log_event, usable, lockout_seconds, max_failed_attempts, has_user_id,
}
use devops_lab.Auth.Session.{
  Fresh, sign_access_token, set_session_cookies, track_login, redis_safe_get,
}

-- Which of the calls of Redis for a failed login take effect: none, the increment, and the lifetime
-- of the counter, or all with the lockout.
pub data Reach : Type 0 where
  nothing counted_only timed_only everything : Reach

pub record LoginRequest : Type 0 where
  pub email : String
  pub password : String
  pub fresh : Fresh
  pub lockout_answers : Bool
  pub on_failure : Reach
  pub clears : Bool

-- What MFA's second step takes: the token's claims (`none` if its verification throws), the code,
-- and the new session.
pub record MfaRequest : Type 0 where
  pub decoded : Option (String × Bool)
  pub code : String
  pub fresh : Fresh

module _ (P : Prisma) (R : Redis AuthKey AuthValue) where
  -- The number of the failures, with this one.
  abbrev pub failures : ℕ → String → R.Kv → ℕ
  failures now email kv = R.counter (R.incr kv now (fails email)) now (fails email)

  abbrev pub count_failure : Reach → ℕ → String → R.Kv → R.Kv
  count_failure reach now email kv =
      let counted = R.incr kv now (fails email) in
      let timed =
        if failures now email kv == 1
        then R.expire counted now (fails email) lockout_seconds
        else counted in
      let locked =
        if leb max_failed_attempts (failures now email kv)
        then R.set_ex timed now (lockout email) flag lockout_seconds
        else timed in
      elim reach [
        | nothing ↦ kv
        | counted_only ↦ counted
        | timed_only ↦ timed
        | everything ↦ locked
      ]

  unfoldable pub handle_login_fail : Reach → ℕ → String → Option String → Auth P R → Auth P R
  handle_login_fail reach now email user_id s =
      log_event P R user_id login_failed (record s { kv = count_failure reach now email s.kv })

  -- The password was right.
  unfoldable pub accept_login :
      (String → String) → ℕ → LoginRequest → AuthUser → Auth P R → Auth P R × AuthReply
  unfolding set_session_cookies track_login
  accept_login sha256 ttl q u s =
      let cleared = record s { kv = if q.clears then R.del s.kv (fails q.email) else s.kv } in
      let logged = log_event P R (some u.id) login_success cleared in
      let opened = set_session_cookies P R sha256 ttl q.fresh u logged in
      let (tracked, known) = track_login P R q.fresh u.id (some (sha256 q.fresh.secret)) opened in
      if u.mfa_enabled then (logged, mfa_required u.id) else (
        tracked,
        if known
            then session_given (sign_access_token q.fresh u) q.fresh.secret
            else refused server_error,
      )

  -- The user and the password.
  unfoldable pub check_login :
      (String → String → Bool)
      → (String → String)
      → ℕ
      → LoginRequest
      → Auth P R
      → Auth P R × AuthReply
  unfolding accept_login handle_login_fail
  check_login verify sha256 ttl q s =
      elim (P.find_first (λ (u : AuthUser). u.email == q.email) s.users) [
        | none ↦
            (handle_login_fail q.on_failure q.fresh.now q.email none s, refused invalid_credentials)
        | some u ↦ elim (usable u.password) [
          | none ↦ (
            handle_login_fail q.on_failure q.fresh.now q.email (some u.id) s,
            refused invalid_credentials,
          )
          | some hash ↦ if verify hash q.password then accept_login sha256 ttl q u s else (
            handle_login_fail q.on_failure q.fresh.now q.email (some u.id) s,
            refused invalid_credentials,
          )
        ]
      ]

  unfoldable pub login :
      (String → String → Bool)
      → (String → String)
      → ℕ
      → LoginRequest
      → Auth P R
      → Auth P R × AuthReply
  unfolding check_login
  login verify sha256 ttl q s =
      if is_some (redis_safe_get P R q.lockout_answers q.fresh.now (lockout q.email) s.kv)
      then (log_event P R none lockout_hit s, refused account_locked)
      else check_login verify sha256 ttl q s

  -- POST /mfa/setup: the new secret, for a user that the token names. `user.update` throws if there
  -- is none.
  unfoldable pub setup_mfa : String → String → Auth P R → Auth P R × AuthReply
  setup_mfa sub secret s = elim (P.find_first (has_user_id sub) s.users) [
    | none ↦ (s, refused server_error)
    | some u ↦ if u.mfa_enabled then (s, refused mfa_already_enabled) else (
      record s {
        users =
            P.update_many (has_user_id sub)
              (λ (x : AuthUser). record x { mfa_secret = some secret }) s.users;
      },
      success,
    )
  ]

  -- POST /mfa/verify
  unfoldable pub verify_mfa :
      (String → String → Bool) → String → String → Auth P R → Auth P R × AuthReply
  verify_mfa check_code sub code s = elim (P.find_first (has_user_id sub) s.users) [
    | none ↦ (s, refused mfa_not_initialized)
    | some u ↦ elim (usable u.mfa_secret) [
      | none ↦ (s, refused mfa_not_initialized)
      | some secret ↦
          if u.mfa_enabled
          then (s, refused mfa_already_enabled)
          else (if check_code code secret
              then (
                record s {
                  users =
                      P.update_many (has_user_id sub)
                        (λ (x : AuthUser). record x { mfa_enabled = true }) s.users;
                },
                success,
              )
              else (s, refused invalid_mfa_code))
    ]
  ]

  -- The user of a second step, and the code.
  unfoldable pub check_mfa :
      (String → String → Bool)
      → (String → String)
      → ℕ
      → String
      → MfaRequest
      → Auth P R
      → Auth P R × AuthReply
  unfolding set_session_cookies
  check_mfa check_code sha256 ttl sub q s = elim (P.find_first (has_user_id sub) s.users) [
    | none ↦ (s, refused mfa_setup_incomplete)
    | some u ↦ elim (usable u.mfa_secret) [
      | none ↦ (s, refused mfa_setup_incomplete)
      | some secret ↦
          if check_code q.code secret
          then (
            set_session_cookies P R sha256 ttl q.fresh u s,
            session_given (sign_access_token q.fresh u) q.fresh.secret,
          )
          else (s, refused invalid_mfa_code)
    ]
  ]

  -- POST /login/mfa
  unfoldable pub login_mfa :
      (String → String → Bool)
      → (String → String)
      → ℕ
      → MfaRequest
      → Auth P R
      → Auth P R × AuthReply
  unfolding check_mfa
  login_mfa check_code sha256 ttl q s = elim q.decoded [
    | none ↦ (s, refused invalid_mfa_token)
    | some (sub, pending) ↦
        if pending then check_mfa check_code sha256 ttl sub q s else (s, refused invalid_mfa_token)
  ]
