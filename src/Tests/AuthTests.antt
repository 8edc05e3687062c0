-- ===== src/Tests/AuthTests.antt =====
-- services/auth/src/routes/account.ts at concrete states.
use devops_lab.Prelude.{
  ℕ, Bool, Bool-cases, ◌≡◌, ◌≤◌, refl, true, false, none, some, String, string_eq, ◌==◌, [], ◌∷◌,
  arith, is_some, if◌then◌else◌, where_rows, nat_eq, update_where,
}
use devops_lab.Services.{Redis, lists, keyed, find}
use devops_lab.Core.Poller.{Attempt, Breaker, acked, late}
use devops_lab.Auth.Outbox.{AuthOutbox, AuthOutboxEvent, is_known, batch_of, process_outbox}
use devops_lab.Auth.Outbox.Order.{IsInOrder, process_outbox-IsInOrder}
use devops_lab.Auth.State.{
  Auth, AuthUser, UserSession, AuthKey, AuthKey-discrete, AuthValue, refresh_key, reset_key,
  exchange_key, flag, rotated, user_ref, refused, success, session_compromised, account_locked,
  invalid_credentials, invalid_reset_token, lockout_hit, log_event, fails, has_user_id,
}
use devops_lab.Auth.Session.{Fresh, is_token_denylisted, set_session_cookies}
use devops_lab.Auth.Login.{LoginRequest, login, check_login, everything}
use devops_lab.Auth.Login.Lockout.{login-locked}
use devops_lab.Auth.Refresh.{RefreshRequest, refresh, refresh_by, renew}
use devops_lab.Auth.Refresh.Breach.{refresh-breach, IsRevokedFor}
use devops_lab.Auth.Refresh.Tokens.{refresh-refines, tokens, spec_refresh, outcome_of, is_token}
use devops_lab.Auth.Account.{Caller, user_of, reset_password}
use devops_lab.Auth.Ending.{revoke_session}
use devops_lab.Auth.Account.Once.{reset_password-once}
use devops_lab.Auth.Ending.Revoke.{is_own, revoke_session-renewed}

abbrev keys : Redis AuthKey AuthValue
keys = keyed AuthKey-discrete

abbrev digest : String → String
digest x = x

abbrev matches : String → String → Bool
matches old new = old == new

abbrev ada : AuthUser
ada = record {
  id = "ada";
  email = "ada@lab";
  name = none;
  job_title = none;
  password = some "right";
  role = "USER";
  email_verified = none;
  mfa_enabled = false;
  mfa_secret = none;
  first_login_at = none;
  last_login_at = none;
}

-- One user with one session, a live token, a token that was rotated one of a reset and one of an exchange; and four
-- failed logins.
abbrev accounts : Auth lists keys
accounts = record {
  users = ada ∷ [];
  user_sessions =
      record { id = 1; user_id = "ada"; token_hash = some "first"; revoked_at = none } ∷ [];
  logs = [];
  events = [];
  submissions = [];
  completions = [];
  lab_sessions = [];
  kv =
      (refresh_key "ada" "first", record { value = some flag; ends = 900000; counted = 0 })
      ∷ (
        refresh_key "ada" "old",
        record { value = some (rotated 1000); ends = 900000; counted = 0 },
      )
      ∷ (reset_key "forgot", record { value = some (user_ref "ada"); ends = 900000; counted = 0 })
      ∷ (exchange_key "sso", record { value = some (user_ref "ada"); ends = 900000; counted = 0 })
      ∷ (fails "ada@lab", record { value = none; ends = 0; counted = 4 })
      ∷ [];
}

abbrev at : ℕ → Fresh
at now = record { now = now; jti = "j"; secret = "next"; row = 2 }

abbrev with_token : String → ℕ → RefreshRequest
with_token secret now = record { cookie = some ("ada" ∷ secret ∷ []); fresh = at now }

abbrev attempt : String → ℕ → LoginRequest
attempt password now = record {
  email = "ada@lab";
  password = password;
  fresh = at now;
  lockout_answers = true;
  on_failure = everything;
  clears = true;
}

abbrev caller : Caller
caller = record {
  claims = record { sub = "ada"; role = "USER"; jti = "j"; iat = 2 };
  first_answers = true;
  second_answers = true;
  now = 3000;
}

rotated_held : keys.get accounts.kv 20000 (refresh_key "ada" "old") ≡ some (rotated 1000)
unfolding AuthKey-discrete Bool-cases
rotated_held = refl

live_held : keys.get accounts.kv 2000 (refresh_key "ada" "first") ≡ some flag
unfolding AuthKey-discrete Bool-cases
live_held = refl

ada_found : lists.find_first (has_user_id "ada") accounts.users ≡ some ada
unfolding find
ada_found = refl

refresh-breach_example :
    let r = refresh lists keys digest 604800 (with_token "old" 20000) accounts in
    (r.1 ≡ refused session_compromised) × IsRevokedFor lists keys digest 604800 "ada" 20000 r.0
refresh-breach_example =
    refresh-breach lists keys digest 604800 (with_token "old" 20000) "ada" "old" 1000 accounts refl
      rotated_held (ground arith)

live_token : is_token (keys.get accounts.kv 2000 (refresh_key "ada" "first")) ≡ true
unfolding AuthKey-discrete Bool-cases
live_token = refl

refresh-refines_example :
    let before = tokens lists keys 2000 604800 accounts in
    let known = is_some (lists.find_first (has_user_id "ada") accounts.users) in
    let spec = spec_refresh known 2000 "ada" "first" "next" (before "ada" "first") before in
    let r = refresh lists keys digest 604800 (with_token "first" 2000) accounts in
    ((u' h' : String) → tokens lists keys 2000 604800 r.0 u' h' ≡ spec.0 u' h')
    × (outcome_of r.1 ≡ spec.1)
refresh-refines_example =
    refresh-refines lists keys digest 604800 (with_token "first" 2000) "ada" "first" accounts
      (ground arith) refl live_token

four_failures : 4 ≤ keys.counter accounts.kv 5000 (fails "ada@lab")
unfolding AuthKey-discrete Bool-cases
four_failures = ground arith

fifth_failure :
    (login lists keys matches digest 604800 (attempt "wrong" 5000) accounts).1
    ≡ refused invalid_credentials
unfolding login check_login find AuthKey-discrete Bool-cases
fifth_failure = refl

login-locked_example :
    let s' = (login lists keys matches digest 604800 (attempt "wrong" 5000) accounts).0 in
    login lists keys matches digest 604800 (attempt "right" 6000) s'
    ≡ (log_event lists keys none lockout_hit s', refused account_locked)
login-locked_example =
    login-locked lists keys matches digest 604800 (attempt "wrong" 5000) (attempt "right" 6000)
      accounts refl four_failures fifth_failure refl refl (ground arith) (ground arith)

reset_held : user_of (keys.get accounts.kv 5000 (reset_key "forgot")) ≡ some "ada"
unfolding AuthKey-discrete Bool-cases
reset_held = refl

ada_known : is_some (lists.find_first (has_user_id "ada") accounts.users) ≡ true
unfolding find
ada_known = refl

reset_password-once_example :
    let r = reset_password lists keys digest 5000 "forgot" "new" 2 accounts in
    (r.1 ≡ success)
    × (lists.rows r.0.users
        ≡ update_where
            (has_user_id "ada")
            (λ (x : AuthUser). record x { password = some (digest "new") })
            (lists.rows accounts.users))
    × (reset_password lists keys digest 6000 "forgot" "other" 2 r.0
        ≡ (r.0, refused invalid_reset_token))
    × IsRevokedFor lists keys digest 604800 "ada" 5000 r.0
reset_password-once_example =
    reset_password-once lists keys digest digest 604800 5000 6000 2 2 "forgot" "new" "other" "ada"
      accounts reset_held ada_known (omega arith)

abbrev ada_session : UserSession
ada_session = record { id = 1; user_id = "ada"; token_hash = some "first"; revoked_at = none }

session_found : lists.find_first (is_own caller 1) accounts.user_sessions ≡ some ada_session
unfolding find
session_found = refl

caller_accepted :
    is_token_denylisted lists keys true true 3000
      (some "j")
      (some "ada")
      (some 2)
      (refresh lists keys digest 604800 (with_token "first" 2000) accounts).0
    ≡ false
unfolding is_token_denylisted refresh refresh_by renew set_session_cookies find AuthKey-discrete
    Bool-cases
caller_accepted = refl

revoke_session-renewed_example :
    let done =
      revoke_session lists keys caller 1
        (refresh lists keys digest 604800 (with_token "first" 2000) accounts).0 in
    (done.1 ≡ success) × (keys.get done.0.kv 4000 (refresh_key "ada" "next") ≡ some flag)
revoke_session-renewed_example =
    revoke_session-renewed lists keys digest 604800 (with_token "first" 2000) caller 1 4000 "first"
      ada ada_session accounts refl live_held ada_found session_found (λ p. cc) caller_accepted
      (ground arith) (ground arith)

-- Three events: one that is not known, one that is sent, and one that is sent too late.
abbrev letter : ℕ → String → AuthOutboxEvent ℕ
letter id t = record {
  id = id;
  event_type = t;
  payload = id;
  processed = false;
  retry_count = 0;
  failed = false;
}

abbrev letters : AuthOutbox lists ℕ
letters = record {
  table =
      letter 1 "UserRenamedEvent"
      ∷ letter 2 "UserRegisteredEvent"
      ∷ letter 3 "EmailVerificationRequestedEvent"
      ∷ [];
  kafka = [];
}

abbrev late_third : AuthOutboxEvent ℕ → Attempt
late_third e = record {
  kafka = if e.id == 3 then late else acked;
  rabbit = acked;
  mark_ok = true;
  retry_ok = true;
  failed_at = 9;
}

abbrev closed : Breaker
closed = record { circuit_open_until = 0; consecutive_failures = 0; backoff_ms = 5000 }

process_outbox-IsInOrder_example :
    IsInOrder lists
      (where_rows is_known (batch_of lists (λ l. l) letters))
      letters
      (process_outbox lists (λ l. l) late_third 5 true letters closed).0
process_outbox-IsInOrder_example =
    process_outbox-IsInOrder lists (λ l. l) late_third 5 true letters closed
