-- ===== src/Core/Sessions/Lifecycle.antt =====
-- The life of a session's row: how the rows before and after an operation are related.
use devops_lab.Prelude.{
  ℕ, ◌≡◌, refl, ◌⊎◌, inl, inr, true, false, List, [], ◌∷◌, ◌++◌, arith, update_where, nat_eq,
  string_eq, Bool-cases, any,
}
use devops_lab.Core.Rows.{LabSession, SessionStatus, is_active}
use devops_lab.Core.Sessions.{is_live, close_with}

-- One row's next form: itself, or closed if it was active.
pub record Closes (r r' : LabSession) : Type 0 where
  pub was : is_active r.status ≡ true
  pub now_closed : is_active r'.status ≡ false
  pub same_id : r'.id ≡ r.id
  pub same_user : r'.user_id ≡ r.user_id
  pub same_challenge : r'.challenge_id ≡ r.challenge_id

abbrev pub Keeps : LabSession → LabSession → Type 0
Keeps r r' = (r' ≡ r) ⊎ Closes r r'

-- Every row is kept or closed, in its place, and rows may be added behind.
abbrev pub Evolves : List LabSession → List LabSession → Type 0
Evolves [] new = Unit
Evolves (r ∷ rs) [] = ⊥
Evolves (r ∷ rs) (r' ∷ rs') = Keeps r r' × Evolves rs rs'

pub Evolves-refl : (rs : List LabSession) → Evolves rs rs
Evolves-refl [] = tt
Evolves-refl (r ∷ rs) = (inl refl, Evolves-refl rs)

pub Evolves-create : (rs : List LabSession) (r : LabSession) → Evolves rs (rs ++ r ∷ [])
Evolves-create [] r = tt
Evolves-create (x ∷ rs) r = (inl refl, Evolves-create rs r)

Keeps-trans : (a b c : LabSession) → Keeps a b → Keeps b c → Keeps a c
Keeps-trans a b c (inl e) k = rw e at k
Keeps-trans a b c (inr h) (inl e) = rw e (inr h)
Keeps-trans a b c (inr h) (inr k) = absurd (ground (arith, h.now_closed, k.was))

pub Evolves-trans : (xs ys zs : List LabSession) → Evolves xs ys → Evolves ys zs → Evolves xs zs
Evolves-trans [] ys zs h k = tt
Evolves-trans (x ∷ xs) [] zs h k = absurd h
Evolves-trans (x ∷ xs) (y ∷ ys) [] h k = absurd k
Evolves-trans (x ∷ xs) (y ∷ ys) (z ∷ zs) h k =
    (Keeps-trans x y z h.0 k.0, Evolves-trans xs ys zs h.1 k.1)

-- The guarded update, `where: { id, status: "ACTIVE" }`, closes and never reopens.
pub Evolves-close :
    (status : SessionStatus) (id now : ℕ) (rs : List LabSession)
    → is_active status ≡ false
    → Evolves rs (update_where (is_live id) (close_with status now) rs)
Evolves-close status id now [] h = tt
Evolves-close status id now (r ∷ rs) h = elim (Bool-cases (is_live id r)) [
  | inl hit ↦ (
    rw hit (
        inr (record {
          was = ground arith;
          now_closed = h;
          same_id = refl;
          same_user = refl;
          same_challenge = refl;
        })),
    Evolves-close status id now rs h,
  )
  | inr miss ↦ (rw miss (inl refl), Evolves-close status id now rs h)
]

-- After the guarded update no row with the identifier is active.
pub close-ends :
    (status : SessionStatus) (id now : ℕ) (rs : List LabSession)
    → is_active status ≡ false
    → any (is_live id) (update_where (is_live id) (close_with status now) rs) ≡ false
close-ends status id now [] h = refl
close-ends status id now (r ∷ rs) h = ground (arith, close-ends status id now rs)
