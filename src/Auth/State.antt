-- ===== src/Auth/State.antt =====
-- The rows (packages/db/prisma/schema.prisma), the Redis keys and the state of the auth service
-- (services/auth/src/utils/session.ts, services/auth/src/routes/account.ts).
use devops_lab.Prelude.{ℕ, ◌*◌, Bool, Option, none, some, String, string_eq, ◌==◌, if◌then◌else◌}
use devops_lab.Services.{Prisma, Redis}
use devops_lab.Core.Rows.{LabSession, string_discrete}
use devops_lab.Progress.State.{Completion, Submission}

pub record AuthUser : Type 0 where
  pub id : String
  pub email : String
  pub name : Option String
  pub job_title : Option String
  pub password : Option String
  pub role : String
  pub email_verified : Option ℕ
  pub mfa_enabled : Bool
  pub mfa_secret : Option String
  pub first_login_at : Option ℕ
  pub last_login_at : Option ℕ

pub record UserSession : Type 0 where
  pub id : ℕ
  pub user_id : String
  pub token_hash : Option String
  pub revoked_at : Option ℕ

pub data SecurityAction : Type 0 where
  registered login_success login_failed logout logout_all password_reset lockout_hit
        revocation_breach :
      SecurityAction

pub record SecurityLog : Type 0 where
  pub user_id : Option String
  pub action : SecurityAction

pub data AuthEvent : Type 0 where
  user_registered : String → AuthEvent
  verification_requested : String → String → AuthEvent
  reset_requested : String → String → AuthEvent
  user_deleted : String → AuthEvent

pub data AuthKey : Type 0 where
  fails : String → AuthKey
  lockout : String → AuthKey
  refresh_key : String → String → AuthKey
  reset_key : String → AuthKey
  verify_key : String → AuthKey
  exchange_key : String → AuthKey
  denied_jti : String → AuthKey
  revoked_user : String → AuthKey

unfoldable pub AuthKey-discrete : Discrete AuthKey
unfolding string_discrete
AuthKey-discrete = hlevel string_discrete

-- The texts that the service stores: "1", the JSON of a rotated token with its time, "revoked", the
-- identifier of a user, and a time.
pub data AuthValue : Type 0 where
  flag : AuthValue
  rotated : ℕ → AuthValue
  revoked : AuthValue
  user_ref : String → AuthValue
  stamp : ℕ → AuthValue

pub record Auth (P : Prisma) (R : Redis AuthKey AuthValue) : Type 0 where
  pub users : P.Table AuthUser
  pub user_sessions : P.Table UserSession
  pub logs : P.Table SecurityLog
  pub events : P.Table AuthEvent
  pub submissions : P.Table Submission
  pub completions : P.Table Completion
  pub lab_sessions : P.Table LabSession
  pub kv : R.Kv

-- The code of an error reply.
pub data ErrorCode : Type 0 where
  account_locked invalid_credentials user_exists invalid_verification_token invalid_reset_token
        refresh_token_missing session_expired session_compromised user_not_found
        exchange_token_invalid oauth_no_password incorrect_password session_not_found token_revoked
        mfa_already_enabled mfa_not_initialized mfa_setup_incomplete invalid_mfa_code
        invalid_mfa_token server_error :
      ErrorCode

-- The claims of an access token; `iat` is in seconds.
pub record Claims : Type 0 where
  pub sub : String
  pub role : String
  pub jti : String
  pub iat : ℕ

-- A session is answered with the access token and the refresh token's secret.
pub data AuthReply : Type 0 where
  refused : ErrorCode → AuthReply
  session_given : Claims → String → AuthReply
  mfa_required : String → AuthReply
  success : AuthReply

-- `!user?.password`: an empty text is no password.
abbrev pub usable : Option String → Option String
usable none = none
usable (some p) = if p == "" then none else some p

abbrev pub lockout_seconds : ℕ
lockout_seconds = 15 * 60

abbrev pub password_reset_seconds : ℕ
password_reset_seconds = 60 * 60

abbrev pub email_verification_seconds : ℕ
email_verification_seconds = 24 * 60 * 60

abbrev pub max_failed_attempts : ℕ
max_failed_attempts = 5

abbrev pub has_user_id : String → AuthUser → Bool
has_user_id id u = u.id == id

module _ (P : Prisma) (R : Redis AuthKey AuthValue) where
  abbrev pub log_event : Option String → SecurityAction → Auth P R → Auth P R
  log_event user_id action s = record s {
    logs = P.create (record { user_id = user_id; action = action }) s.logs;
  }
