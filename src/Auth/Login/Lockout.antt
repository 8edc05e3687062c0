-- ===== src/Auth/Login/Lockout.antt =====
-- POST /login after failed attempts.
use devops_lab.Prelude.{
  ℕ, ◌≡◌, ◌≤◌, ◌<◌, ◌+◌, ◌*◌, refl, Bool, true, Option, none, some, String, string_eq, ◌==◌, leb,
  ltb, arith, Bool-cases, Option-cases, inl, inr, is_some, ◌∙◌,
}
use devops_lab.Services.{Prisma, Redis}
use devops_lab.Auth.State.{
  Auth, AuthUser, AuthKey, AuthValue, fails, lockout, flag, refused, account_locked,
  invalid_credentials, lockout_hit, log_event, usable, lockout_seconds,
}
use devops_lab.Auth.Session.{redis_safe_get}
use devops_lab.Auth.Login.{
  LoginRequest, login, check_login, accept_login, handle_login_fail, failures, everything,
}

module _ (P : Prisma) (R : Redis AuthKey AuthValue) (verify : String → String → Bool)
    (sha256 : String → String) (ttl : ℕ) where
  -- The account is locked at a time.
  abbrev IsLocked : String → ℕ → Auth P R → Type 0
  IsLocked email t s = R.get s.kv t (lockout email) ≡ some flag

  module _ (q : LoginRequest) (later : ℕ) (s : Auth P R) where
    handle_login_fail-IsLocked :
        (user_id : Option String)
        → 4 ≤ R.counter s.kv q.fresh.now (fails q.email)
        → q.fresh.now ≤ later
        → later < q.fresh.now + lockout_seconds * 1000
        → IsLocked q.email later (handle_login_fail P R everything q.fresh.now q.email user_id s)
    unfolding handle_login_fail
    handle_login_fail-IsLocked user_id four le lt =
        let counted = R.counter-incr_self s.kv q.fresh.now (fails q.email) in
        let fifth : leb 5 (failures P R q.fresh.now q.email s.kv) ≡ true =
          ground (arith, counted, four) in
        let in_time : ltb later (q.fresh.now + lockout_seconds * 1000) ≡ true =
          ground (arith, lt) in
        rw fifth (
          R.get-set_ex_self _ q.fresh.now later (lockout q.email) flag lockout_seconds le
          ∙ rw in_time refl)

    accept_login-answers :
        (u : AuthUser) → (accept_login P R sha256 ttl q u s).1 ≡ refused invalid_credentials → ⊥
    unfolding accept_login
    accept_login-answers u h = elim (Bool-cases u.mfa_enabled) [
      | inl e ↦ cc (rw (e, accept_login) at h)
      | inr e ↦ absurd (ground (arith, rw (e, accept_login) at h))
    ]

    check_login-IsLocked :
        q.on_failure ≡ everything
        → 4 ≤ R.counter s.kv q.fresh.now (fails q.email)
        → q.fresh.now ≤ later
        → later < q.fresh.now + lockout_seconds * 1000
        → (check_login P R verify sha256 ttl q s).1 ≡ refused invalid_credentials
        → IsLocked q.email later (check_login P R verify sha256 ttl q s).0
    unfolding check_login
    check_login-IsLocked all four le lt failed =
        let locked = λ (o : Option String). handle_login_fail-IsLocked o four le lt in
        elim (Option-cases (P.find_first (λ (u : AuthUser). u.email == q.email) s.users)) [
          | inl e ↦ rw (e, all, check_login) (locked none)
          | inr (u, e) ↦ elim (Option-cases (usable u.password)) [
            | inl n ↦ rw (e, n, all, check_login) (locked (some u.id))
            | inr (hash, p) ↦ elim (Bool-cases (verify hash q.password)) [
              | inr w ↦ rw (e, p, w, all, check_login) (locked (some u.id))
              | inl w ↦ absurd (accept_login-answers u (rw (e, p, w, check_login) at failed))
            ]
          ]
        ]

  -- After four counted failures, a login that fails with its calls of Redis taking effect locks
  -- the address: until fifteen minutes later every login for it that Redis answers is refused,
  -- with any password, and leaves one row in the security log and nothing else.
  pub login-locked :
      (q q' : LoginRequest) (s : Auth P R)
      → q.on_failure ≡ everything
      → 4 ≤ R.counter s.kv q.fresh.now (fails q.email)
      → (login P R verify sha256 ttl q s).1 ≡ refused invalid_credentials
      → q'.email ≡ q.email
      → q'.lockout_answers ≡ true
      → q.fresh.now ≤ q'.fresh.now
      → q'.fresh.now < q.fresh.now + 15 * 60 * 1000
      → let s' = (login P R verify sha256 ttl q s).0 in
        login P R verify sha256 ttl q' s'
        ≡ (log_event P R none lockout_hit s', refused account_locked)
  unfolding login
  login-locked q q' s all four failed same answers le lt =
      elim (Bool-cases
        (is_some (redis_safe_get P R q.lockout_answers q.fresh.now (lockout q.email) s.kv))) [
          | inl e ↦ absurd (ground (arith, rw (e, login) at failed))
          | inr e ↦
              let locked =
                check_login-IsLocked q q'.fresh.now s all four le lt (rw (e, login) at failed) in
              rw (e, same, answers, locked, login) refl
        ]
