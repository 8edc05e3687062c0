-- ===== src/Auth/Refresh/Tokens.antt =====
-- POST /refresh against an abstract table of tokens: which are dead, fresh, or spent and since when.
use devops_lab.Prelude.{
  ℕ, ◌≡◌, ◌≢◌, ◌<◌, ◌+◌, ◌*◌, refl, Bool, true, false, ◌&&◌, Option, none, some, String, string_eq,
  nat_eq, ◌==◌, leb, ltb, arith, Bool-cases, Option-cases, inl, inr, if◌then◌else◌, ◌∙◌, ap,
  is_some, eq_self, eq_of_beq, subst,
}
use devops_lab.Services.{Prisma, Redis}
use devops_lab.Auth.State.{
  Auth, AuthKey, AuthValue, refresh_key, flag, rotated, revoked, user_ref, stamp, AuthReply,
  refused, session_given, session_compromised, user_not_found, has_user_id,
}
use devops_lab.Auth.Session.{Fresh, set_session_cookies, parse_refresh_token}
use devops_lab.Auth.Refresh.{RefreshRequest, refresh, refresh_by, reuse_token, renew}
use devops_lab.Auth.Revocation.{invalidate_all_sessions-IsGone, invalidate_all_sessions-others}

pub data Token : Type 0 where
  dead live : Token
  spent : ℕ → Token

-- The outcomes that a caller can tell apart.
pub data Outcome : Type 0 where
  expired compromised unknown_user given : Outcome

abbrev pub Tokens : Type 0
Tokens = String → String → Token

abbrev pub put_token : String → String → Token → Tokens → Tokens
put_token u h x v u' h' = if u' == u && h' == h then x else v u' h'

abbrev pub drop_user : String → Tokens → Tokens
drop_user u v u' h' = if u' == u then dead else v u' h'

-- What a refresh with the token `h` of the user `u` promises; `fresh` is the new token's hash.
unfoldable pub spec_refresh :
    Bool → ℕ → String → String → String → Token → Tokens → Tokens × Outcome
spec_refresh known now u h fresh dead v = (v, expired)
spec_refresh known now u h fresh live v =
    let used = put_token u h (spent now) v in
    if known then (put_token u fresh live used, given) else (used, unknown_user)
spec_refresh known now u h fresh (spent t) v =
    if leb now (t + 10000)
    then (if known then (put_token u fresh live v, given) else (v, unknown_user))
    else (drop_user u v, compromised)

abbrev pub token_of : Option AuthValue → Token
token_of none = dead
token_of (some flag) = live
token_of (some (rotated t)) = spent t
token_of (some revoked) = dead
token_of (some (user_ref u)) = dead
token_of (some (stamp t)) = dead

-- Only the texts of tokens stand under a token's key.
abbrev pub is_token : Option AuthValue → Bool
is_token (some (stamp t)) = false
is_token _ = true

abbrev pub outcome_of : AuthReply → Outcome
outcome_of (refused session_compromised) = compromised
outcome_of (refused user_not_found) = unknown_user
outcome_of (session_given c secret) = given
outcome_of _ = expired

abbrev user_part : AuthKey → String
user_part (refresh_key u h) = u
user_part _ = ""

abbrev hash_part : AuthKey → String
hash_part (refresh_key u h) = h
hash_part _ = ""

refresh_key-ne :
    (u u' h h' : String) → (u' == u && h' == h) ≡ false → refresh_key u' h' ≢ refresh_key u h
refresh_key-ne u u' h h' miss e =
    let a : (u' == u) ≡ true = subst (λ x. (u' == x) ≡ true) (ap user_part e) (eq_self u') in
    let b : (h' == h) ≡ true = subst (λ x. (h' == x) ≡ true) (ap hash_part e) (eq_self h') in
    absurd (ground (arith, a, b, miss))

refresh_key-same :
    (u u' h h' : String) → (u' == u && h' == h) ≡ true → refresh_key u' h' ≡ refresh_key u h
refresh_key-same u u' h h' hit =
    let a : (u' == u) ≡ true = ground (arith, hit) in
    let b : (h' == h) ≡ true = ground (arith, hit) in
    ap (λ x. refresh_key x h') (eq_of_beq u' u a) ∙ ap (λ x. refresh_key u x) (eq_of_beq h' h b)

module _ (P : Prisma) (R : Redis AuthKey AuthValue) (now ttl : ℕ) where
  -- The tokens as Redis has them at the time of the request.
  abbrev pub tokens : Auth P R → Tokens
  tokens s u h = token_of (R.get s.kv now (refresh_key u h))

  tokens-set_ex :
      (kv : R.Kv) (u u' h h' : String) (v : AuthValue)
      → 0 < ttl
      → token_of (R.get (R.set_ex kv now (refresh_key u h) v ttl) now (refresh_key u' h')) ≡ (
          if u' == u && h' == h
          then token_of (some v)
          else token_of (R.get kv now (refresh_key u' h')))
  tokens-set_ex kv u u' h h' v pos = elim (Bool-cases (u' == u && h' == h)) [
    | inl e ↦
        let alive : ltb now (now + ttl * 1000) ≡ true = ground (arith, pos) in
        let read : R.get (R.set_ex kv now (refresh_key u h) v ttl) now (refresh_key u' h')
            ≡ some v =
          ap (R.get (R.set_ex kv now (refresh_key u h) v ttl) now) (refresh_key-same u u' h h' e)
          ∙ R.get-set_ex_self kv now now (refresh_key u h) v ttl (omega arith)
          ∙ rw alive refl in
        rw e (ap token_of read)
    | inr e ↦
        let read =
          R.get-set_ex_ne kv now now (refresh_key u' h') (refresh_key u h) v ttl
            (refresh_key-ne u u' h h' e) in
        rw e (ap token_of read)
  ]

module _ (P : Prisma) (R : Redis AuthKey AuthValue) (ttl : ℕ) (sha256 : String → String)
    (f : Fresh) where
  abbrev table : Auth P R → Tokens
  table = tokens P R f.now ttl

  -- The table of the state is the abstract one.
  abbrev Agrees : Tokens → Auth P R → Type 0
  Agrees v s = (u h : String) → table s u h ≡ v u h

  module _ (u : String) (pos : 0 < ttl) where
    abbrev known : Auth P R → Bool
    known s = is_some (P.find_first (has_user_id u) s.users)

    abbrev renewed : Auth P R → Tokens → Tokens × Outcome
    renewed s v =
        if known s then (put_token u (sha256 f.secret) live v, given) else (v, unknown_user)

    renew-refines :
        (s : Auth P R) (v : Tokens)
        → Agrees v s
        → let r = renew P R sha256 ttl f u s in
          Agrees (renewed s v).0 r.0 × (outcome_of r.1 ≡ (renewed s v).1)
    unfolding renew set_session_cookies
    renew-refines s v h = elim (Option-cases (P.find_first (has_user_id u) s.users)) [
      | inl e ↦ rw (e, renew) (h, refl)
      | inr (x, e) ↦
          let own : x.id ≡ u = eq_of_beq x.id u (P.find_first-some (has_user_id u) s.users x e).0 in
          let new = sha256 f.secret in
          rw (e, renew, own)
            (
              (λ u' h'.
                  tokens-set_ex P R f.now ttl s.kv u u' new h' flag pos
                  ∙ ap (λ x. if u' == u && h' == new then live else x) (h u' h')),
              refl,
            )
    ]

    -- By what Redis can hold for the token.
    refresh_live :
        (h : String) (s : Auth P R)
        → let spec = spec_refresh (known s) f.now u h (sha256 f.secret) live (table s) in
          let r = refresh_by P R sha256 ttl f u h (some flag) s in
          Agrees spec.0 r.0 × (outcome_of r.1 ≡ spec.1)
    unfolding refresh_by spec_refresh
    refresh_live h s =
        renew-refines (record s { kv = R.set_ex s.kv f.now (refresh_key u h) (rotated f.now) ttl })
          (put_token u h (spent f.now) (table s))
          (λ u' h'. tokens-set_ex P R f.now ttl s.kv u u' h h' (rotated f.now) pos)

    refresh_spent :
        (h : String) (t : ℕ) (s : Auth P R)
        → let spec = spec_refresh (known s) f.now u h (sha256 f.secret) (spent t) (table s) in
          let r = refresh_by P R sha256 ttl f u h (some (rotated t)) s in
          Agrees spec.0 r.0 × (outcome_of r.1 ≡ spec.1)
    unfolding refresh_by spec_refresh reuse_token
    refresh_spent h t s = elim (Bool-cases (leb f.now (t + 10000))) [
      | inl e ↦ rw (e, reuse_token) (renew-refines s (table s) (λ u' h'. refl))
      | inr e ↦
          rw (e, reuse_token)
            (
              (λ u' h'. elim (Bool-cases (u' == u)) [
                | inl m ↦
                    rw (m, eq_of_beq u' u m)
                      (ap token_of (invalidate_all_sessions-IsGone P R f.now u s f.now h'))
                | inr m ↦
                    rw m (ap token_of (invalidate_all_sessions-others P R f.now u s f.now u' h' m))
              ]),
              refl,
            )
    ]

    refresh_by-refines :
        (h : String) (o : Option AuthValue) (s : Auth P R)
        → is_token o ≡ true
        → let spec = spec_refresh (known s) f.now u h (sha256 f.secret) (token_of o) (table s) in
          let r = refresh_by P R sha256 ttl f u h o s in
          Agrees spec.0 r.0 × (outcome_of r.1 ≡ spec.1)
    unfolding refresh_by spec_refresh
    refresh_by-refines h none s ok = ((λ u' h'. refl), refl)
    refresh_by-refines h (some flag) s ok = refresh_live h s
    refresh_by-refines h (some (rotated t)) s ok = refresh_spent h t s
    refresh_by-refines h (some revoked) s ok = ((λ u' h'. refl), refl)
    refresh_by-refines h (some (user_ref x)) s ok = ((λ u' h'. refl), refl)
    refresh_by-refines h (some (stamp t)) s ok = cc

-- If refresh tokens have a positive lifetime, then for a cookie that parses and a key that holds a
-- token's value or nothing, the refresh does to the tokens of all users, and answers, what the
-- specification says: a live token becomes rotated and a new one is live, a rotated one within ten
-- seconds gives a new one, a rotated one after that drops every token of its user, a dead one
-- changes nothing, and a token whose user is gone gets no new one.
pub refresh-refines :
    (P : Prisma) (R : Redis AuthKey AuthValue) (sha256 : String → String) (ttl : ℕ)
    (q : RefreshRequest) (u h : String) (s : Auth P R)
    → 0 < ttl
    → parse_refresh_token sha256 q.cookie ≡ some (u, h)
    → is_token (R.get s.kv q.fresh.now (refresh_key u h)) ≡ true
    → let before = tokens P R q.fresh.now ttl s in
      let known = is_some (P.find_first (has_user_id u) s.users) in
      let spec = spec_refresh known q.fresh.now u h (sha256 q.fresh.secret) (before u h) before in
      let r = refresh P R sha256 ttl q s in
      ((u' h' : String) → tokens P R q.fresh.now ttl r.0 u' h' ≡ spec.0 u' h')
      × (outcome_of r.1 ≡ spec.1)
unfolding refresh
refresh-refines P R sha256 ttl q u h s pos e ok =
    rw (e, refresh)
      (refresh_by-refines P R ttl sha256 q.fresh u pos h (R.get s.kv q.fresh.now (refresh_key u h))
        s ok)
