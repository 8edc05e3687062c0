-- ===== src/Auth/Session.antt =====
-- services/auth/src/utils/session.ts: access tokens, refresh tokens, and their revocation.
-- `sha256` is the hash of node's crypto module.
use devops_lab.Prelude.{
  zero, suc, ℕ, ◌*◌, ◌/◌, Bool, true, false, ◌&&◌, ◌||◌, Option, none, some, String, List, [], ◌∷◌,
  string_eq, nat_eq, ◌==◌, leb, is_some, if◌then◌else◌,
}
use devops_lab.Services.{Prisma, Redis}
use devops_lab.Auth.State.{
  Auth, AuthUser, UserSession, AuthKey, AuthValue, refresh_key, denied_jti, revoked_user, flag,
  revoked, stamp, Claims, has_user_id,
}

-- What a new session takes from outside: the clock, the identifier of the token, the random secret,
-- and the identifier of the row.
pub record Fresh : Type 0 where
  pub now : ℕ
  pub jti : String
  pub secret : String
  pub row : ℕ

abbrev pub sign_access_token : Fresh → AuthUser → Claims
sign_access_token f u = record { sub = u.id; role = u.role; jti = f.jti; iat = f.now / 1000 }

-- A cookie is the list of its parts between the dots; a missing one is `none`.
abbrev pub parse_refresh_token : (String → String) → Option (List String) → Option (String × String)
parse_refresh_token sha256 none = none
parse_refresh_token sha256 (some []) = none
parse_refresh_token sha256 (some (u ∷ [])) = none
parse_refresh_token sha256 (some (u ∷ secret ∷ [])) = some (u, sha256 secret)
parse_refresh_token sha256 (some (u ∷ secret ∷ x ∷ xs)) = none

-- `data: { lastLoginAt, ...(user?.firstLoginAt ? {} : { firstLoginAt }) }`
abbrev pub logged_in_at : ℕ → AuthUser → AuthUser
logged_in_at now u = record u {
  last_login_at = some now;
  first_login_at = if is_some u.first_login_at then u.first_login_at else some now;
}

abbrev pub is_open_of : String → UserSession → Bool
is_open_of user_id r = r.user_id == user_id && (if is_some r.revoked_at then false else true)

abbrev pub revoke_at : ℕ → UserSession → UserSession
revoke_at now r = record r { revoked_at = some now }

-- The pattern `auth:refresh:<user>:*`.
abbrev pub is_refresh_of : String → AuthKey → Bool
is_refresh_of user_id (refresh_key u h) = u == user_id
is_refresh_of user_id _ = false

-- A user's tokens that were issued until the mark, or without a time, are revoked.
abbrev pub is_before : Option ℕ → Option AuthValue → Bool
is_before iat none = false
is_before none (some v) = true
is_before (some zero) (some v) = true
is_before (some (suc n)) (some (stamp t)) = leb ((suc n) * 1000) t
is_before (some (suc n)) (some _) = false

abbrev pub is_revoked_value : Option AuthValue → Bool
is_revoked_value (some revoked) = true
is_revoked_value _ = false

module _ (P : Prisma) (R : Redis AuthKey AuthValue) where
  -- The refresh token lives `ttl` seconds.
  unfoldable pub set_session_cookies :
      (String → String) → ℕ → Fresh → AuthUser → Auth P R → Auth P R
  set_session_cookies sha256 ttl f u s = record s {
    kv = R.set_ex s.kv f.now (refresh_key u.id (sha256 f.secret)) flag ttl;
  }

  -- `false` if the user's row is gone: then the update throws.
  unfoldable pub track_login : Fresh → String → Option String → Auth P R → Auth P R × Bool
  track_login f user_id hash s =
      let updated = record s {
        users = P.update_many (has_user_id user_id) (logged_in_at f.now) s.users;
      } in
      let row : UserSession = record {
        id = f.row;
        user_id = user_id;
        token_hash = hash;
        revoked_at = none;
      } in
      if is_some (P.find_first (has_user_id user_id) s.users)
      then (record updated { user_sessions = P.create row s.user_sessions }, true)
      else (s, false)

  unfoldable pub denylist_access_token : ℕ → Option String → Auth P R → Auth P R
  denylist_access_token now none s = s
  denylist_access_token now (some jti) s = record s {
    kv = R.set_ex s.kv now (denied_jti jti) revoked 900;
  }

  -- A read that times out, or fails, reads nothing.
  abbrev pub redis_safe_get : Bool → ℕ → AuthKey → R.Kv → Option AuthValue
  redis_safe_get answers now k kv = if answers then R.get kv now k else none

  abbrev pub is_denied : Bool → ℕ → Option String → R.Kv → Bool
  is_denied answers now none kv = false
  is_denied answers now (some jti) kv =
      is_revoked_value (redis_safe_get answers now (denied_jti jti) kv)

  abbrev pub is_user_revoked : Bool → ℕ → Option String → Option ℕ → R.Kv → Bool
  is_user_revoked answers now none iat kv = false
  is_user_revoked answers now (some u) iat kv =
      is_before iat (redis_safe_get answers now (revoked_user u) kv)

  -- The two reads answer or not, each by itself.
  unfoldable pub is_token_denylisted :
      Bool → Bool → ℕ → Option String → Option String → Option ℕ → Auth P R → Bool
  is_token_denylisted first second now jti user_id iat s =
      is_denied first now jti s.kv || is_user_revoked second now user_id iat s.kv

  unfoldable pub del_batch : List AuthKey → R.Kv → R.Kv
  del_batch [] kv = kv
  del_batch (k ∷ ks) kv = del_batch ks (R.del kv k)

  -- The loop over the cursors; a batch without a key is passed over.
  unfoldable pub del_batches : List (List AuthKey) → R.Kv → R.Kv
  unfolding del_batch
  del_batches [] kv = kv
  del_batches (b ∷ bs) kv = del_batches bs (del_batch b kv)

  unfoldable pub invalidate_all_sessions : ℕ → String → Auth P R → Auth P R
  unfolding del_batches
  invalidate_all_sessions now user_id s =
      let marked = R.set_ex s.kv now (revoked_user user_id) (stamp now) 900 in
      record s {
        kv = del_batches (R.scan marked (is_refresh_of user_id)) marked;
        user_sessions = P.update_many (is_open_of user_id) (revoke_at now) s.user_sessions;
      }
