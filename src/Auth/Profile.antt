-- ===== src/Auth/Profile.antt =====
-- services/auth/src/routes/account.ts: a user's own profile and sessions, and a guest's token.
use devops_lab.Prelude.{
  ℕ, ◌/◌, Bool, Option, none, some, String, List, string_eq, is_some, if◌then◌else◌,
}
use devops_lab.Services.{Prisma, Redis}
use devops_lab.Auth.State.{
  Auth, AuthUser, UserSession, AuthKey, AuthValue, AuthReply, refused, success, server_error,
  Claims, has_user_id, usable,
}
use devops_lab.Auth.Session.{is_token_denylisted, is_open_of}
use devops_lab.Auth.Account.{Caller, guarded}

-- The user's row, with `hasPassword` in place of the password.
pub record Profile : Type 0 where
  pub id : String
  pub email : String
  pub name : Option String
  pub job_title : Option String
  pub role : String
  pub email_verified : Option ℕ
  pub mfa_enabled : Bool
  pub first_login_at : Option ℕ
  pub last_login_at : Option ℕ
  pub has_password : Bool

abbrev pub profile_of : AuthUser → Profile
profile_of u = record {
  id = u.id;
  email = u.email;
  name = u.name;
  job_title = u.job_title;
  role = u.role;
  email_verified = u.email_verified;
  mfa_enabled = u.mfa_enabled;
  first_login_at = u.first_login_at;
  last_login_at = u.last_login_at;
  has_password = is_some (usable u.password);
}

-- A field that the body leaves out stays.
abbrev pub or_kept : Option String → Option String → Option String
or_kept none old = old
or_kept (some x) old = some x

-- POST /guest-token: `user_id` is "guest_" and the guest's identifier.
abbrev pub guest_token : String → String → ℕ → Claims
guest_token user_id jti now = record { sub = user_id; role = "GUEST"; jti = jti; iat = now / 1000 }

module _ (P : Prisma) (R : Redis AuthKey AuthValue) where
  -- Whether the hook of the routes lets the caller pass.
  abbrev pub is_refused : Caller → Auth P R → Bool
  is_refused c s =
      is_token_denylisted P R c.first_answers c.second_answers c.now (some c.claims.jti)
        (some c.claims.sub) (some c.claims.iat) s

  abbrev pub profile_found : Option AuthUser → Option Profile
  profile_found none = none
  profile_found (some u) = some (profile_of u)

  -- GET /me; `none` is a refusal, of the token or with 404.
  unfoldable pub get_profile : Caller → Auth P R → Option Profile
  unfolding is_token_denylisted
  get_profile c s =
      if is_refused c s
      then none
      else profile_found (P.find_first (has_user_id c.claims.sub) s.users)

  -- PUT /me
  unfoldable pub update_profile :
      Caller → Option String → Option String → Auth P R → Auth P R × AuthReply
  unfolding is_token_denylisted
  update_profile c name job_title s = guarded P R c s (
      if is_some (P.find_first (has_user_id c.claims.sub) s.users)
      then (
        record s {
          users =
              P.update_many (has_user_id c.claims.sub)
                (λ (u : AuthUser). record u {
                  name = or_kept name u.name;
                  job_title = or_kept job_title u.job_title;
                })
                s.users;
        },
        success,
      )
      else (s, refused server_error))

  -- GET /sessions, less the order; `none` is a refused token.
  unfoldable pub list_sessions : Caller → Auth P R → Option (List UserSession)
  unfolding is_token_denylisted
  list_sessions c s =
      if is_refused c s then none else some (P.find_many (is_open_of c.claims.sub) s.user_sessions)
