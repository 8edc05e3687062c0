-- ===== src/Auth/Account/Once.antt =====
-- The single-use tokens of POST /reset-password and POST /exchange.
use devops_lab.Prelude.{
  ℕ, ◌≡◌, refl, true, Option, none, some, String, string_eq, Option-cases, inl, inr, is_some, ◌∙◌,
  update_where, ◌≤◌, leb, arith,
}
use devops_lab.Services.{Prisma, Redis}
use devops_lab.Auth.State.{
  Auth, AuthUser, AuthKey, AuthValue, reset_key, exchange_key, refresh_key, flag, refused, success,
  invalid_reset_token, exchange_token_invalid, has_user_id, password_reset, log_event,
}
use devops_lab.Auth.Session.{Fresh, set_session_cookies}
use devops_lab.Auth.Account.{reset_password, reset_for, exchange, exchange_for, user_of}
use devops_lab.Auth.Refresh.Breach.{IsRevokedFor, invalidate_all_sessions-IsRevokedFor}
use devops_lab.Auth.Revocation.{invalidate_all_sessions-keeps}

module _ (P : Prisma) (R : Redis AuthKey AuthValue) (hash sha256 : String → String) (ttl : ℕ) where
  -- A reset token that names a known user sets the password once, if the two writes succeed: the
  -- user's password becomes the hash of the new one and no other user changes; a second use, at
  -- any time and with any password, is refused and changes nothing, and every refresh token and
  -- earlier access token of the user is revoked.
  pub reset_password-once :
      (now later writes retried : ℕ) (token password other user_id : String) (s : Auth P R)
      → user_of (R.get s.kv now (reset_key token)) ≡ some user_id
      → is_some (P.find_first (has_user_id user_id) s.users) ≡ true
      → 2 ≤ writes
      → let r = reset_password P R hash now token password writes s in
        (r.1 ≡ success)
        × (P.rows r.0.users
            ≡ update_where
                (has_user_id user_id)
                (λ (x : AuthUser). record x { password = some (hash password) })
                (P.rows s.users))
        × (reset_password P R hash later token other retried r.0
            ≡ (r.0, refused invalid_reset_token))
        × IsRevokedFor P R sha256 ttl user_id now r.0
  unfolding reset_password reset_for
  reset_password-once now later writes retried token password other user_id s e known all_written =
      let first : leb 1 writes ≡ true = ground (arith, all_written) in
      let second : leb 2 writes ≡ true = ground (arith, all_written) in
      let spent =
        record (log_event P R (some user_id) password_reset (record s {
          users =
              P.update_many (has_user_id user_id)
                (λ (x : AuthUser). record x { password = some (hash password) }) s.users;
        })) { kv = R.del s.kv (reset_key token) } in
      let gone =
        invalidate_all_sessions-keeps P R now user_id spent later (reset_key token) refl (λ p. cc)
        ∙ R.get-del_self s.kv later (reset_key token) in
      rw (e, known, first, second, gone, reset_password, reset_for)
        (
          refl,
          P.rows-update_many _ _ s.users,
          refl,
          invalidate_all_sessions-IsRevokedFor P R sha256 ttl user_id now spent,
        )

  exchange_for-kv :
      (f : Fresh) (o : Option String) (later : ℕ) (token : String) (s : Auth P R)
      → R.get s.kv later (exchange_key token) ≡ none
      → R.get (exchange_for P R sha256 ttl f o s).0.kv later (exchange_key token) ≡ none
  unfolding exchange_for set_session_cookies
  exchange_for-kv f none later token s h = h
  exchange_for-kv f (some u) later token s h =
      elim (Option-cases (P.find_first (has_user_id u) s.users)) [
        | inl e ↦ rw (e, exchange_for) h
        | inr (x, e) ↦
            rw (e, exchange_for)
              (R.get-set_ex_ne s.kv f.now later (exchange_key token)
                  (refresh_key x.id (sha256 f.secret)) flag ttl (λ p. cc)
                ∙ h)
      ]

  -- The second exchange of a token is refused with exchange_token_invalid, whatever the first one
  -- was answered.
  exchange-once :
      (f f' : Fresh) (token : String) (s : Auth P R)
      → (exchange P R sha256 ttl f' token (exchange P R sha256 ttl f token s).0).1
        ≡ refused exchange_token_invalid
  unfolding exchange exchange_for
  exchange-once f f' token s =
      let spent = record s { kv = R.del s.kv (exchange_key token) } in
      let o = user_of (R.get s.kv f.now (exchange_key token)) in
      let gone =
        exchange_for-kv f o f'.now token spent (R.get-del_self s.kv f'.now (exchange_key token)) in
      rw (gone, exchange, exchange_for) refl
