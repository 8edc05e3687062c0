-- ===== src/Core/Sessions/Owned.antt =====
-- DELETE /session/active: which rows its updates can reach, if the identifiers are unique.
use devops_lab.Prelude.{
  ℕ, ◌≤◌, ◌≡◌, refl, ◌⊎◌, inl, inr, Bool, true, false, ◌&&◌, ◌||◌, not, String, List, [], ◌∷◌, All,
  any, arith, count, update_where, where_rows, nat_eq, string_eq, ◌==◌, eq_self, eq_of_beq,
  Bool-cases,
}
use devops_lab.Core.Rows.{LabSession, terminated}
use devops_lab.Core.Start.{active_of}
use devops_lab.Core.Sessions.{is_live, close_with}
use devops_lab.Core.Sessions.Lifecycle.{Closes}

-- A row stays as it is, or it is closed and belongs to the user.
abbrev pub KeepsOthers : String → LabSession → LabSession → Type 0
KeepsOthers u r r' = (r' ≡ r) ⊎ (Closes r r' × (r.user_id ≡ u))

-- The same rows in their places, of which only active ones of the user may have been closed.
abbrev pub ClosesOf : String → List LabSession → List LabSession → Type 0
ClosesOf u [] [] = Unit
ClosesOf u [] (r' ∷ rs') = ⊥
ClosesOf u (r ∷ rs) [] = ⊥
ClosesOf u (r ∷ rs) (r' ∷ rs') = KeepsOthers u r r' × ClosesOf u rs rs'

pub ClosesOf-refl : (u : String) (rs : List LabSession) → ClosesOf u rs rs
ClosesOf-refl u [] = tt
ClosesOf-refl u (r ∷ rs) = (inl refl, ClosesOf-refl u rs)

KeepsOthers-trans :
    (u : String) (a b c : LabSession) → KeepsOthers u a b → KeepsOthers u b c → KeepsOthers u a c
KeepsOthers-trans u a b c (inl e) k = rw e at k
KeepsOthers-trans u a b c (inr h) (inl e) = rw e (inr h)
KeepsOthers-trans u a b c (inr h) (inr k) = absurd (ground (arith, h.0.now_closed, k.0.was))

pub ClosesOf-trans :
    (u : String) (xs ys zs : List LabSession)
    → ClosesOf u xs ys
    → ClosesOf u ys zs
    → ClosesOf u xs zs
ClosesOf-trans u [] [] zs h k = k
ClosesOf-trans u [] (y ∷ ys) zs h k = absurd h
ClosesOf-trans u (x ∷ xs) [] zs h k = absurd h
ClosesOf-trans u (x ∷ xs) (y ∷ ys) [] h k = absurd k
ClosesOf-trans u (x ∷ xs) (y ∷ ys) (z ∷ zs) h k =
    (KeepsOthers-trans u x y z h.0 k.0, ClosesOf-trans u xs ys zs h.1 k.1)

-- The row is the user's, if it is an active one with the identifier.
abbrev owns : String → ℕ → LabSession → Bool
owns u id r = not (is_live id r) || r.user_id == u

abbrev Owns : String → List LabSession → LabSession → Type 0
Owns u rs x = All (λ r. owns u x.id r ≡ true) rs

-- All the rows that the updates for these sessions can reach are the user's.
abbrev pub Owned : String → List LabSession → List LabSession → Type 0
Owned u todo rs = All (Owns u rs) todo

Owns-close :
    (u : String) (x : LabSession) (id now : ℕ) (rs : List LabSession)
    → Owns u rs x
    → Owns u (update_where (is_live id) (close_with terminated now) rs) x
Owns-close u x id now [] h = tt
Owns-close u x id now (r ∷ rs) h = (ground (arith, h.0), Owns-close u x id now rs h.1)

pub Owned-close :
    (u : String) (todo : List LabSession) (id now : ℕ) (rs : List LabSession)
    → Owned u todo rs
    → Owned u todo (update_where (is_live id) (close_with terminated now) rs)
Owned-close u [] id now rs h = tt
Owned-close u (x ∷ todo) id now rs h =
    (Owns-close u x id now rs h.0, Owned-close u todo id now rs h.1)

pub ClosesOf-close :
    (u : String) (x : LabSession) (now : ℕ) (rs : List LabSession)
    → Owns u rs x
    → ClosesOf u rs (update_where (is_live x.id) (close_with terminated now) rs)
ClosesOf-close u x now [] h = tt
ClosesOf-close u x now (r ∷ rs) h = elim (Bool-cases (is_live x.id r)) [
  | inl hit ↦ (
    rw hit (
        inr (
          record {
            was = ground arith;
            now_closed = refl;
            same_id = refl;
            same_user = refl;
            same_challenge = refl;
          },
          eq_of_beq r.user_id u (ground (arith, hit, h.0)),
        )),
    ClosesOf-close u x now rs h.1,
  )
  | inr miss ↦ (rw miss (inl refl), ClosesOf-close u x now rs h.1)
]

abbrev has_id : ℕ → LabSession → Bool
has_id id r = r.id == id

abbrev found : String → List LabSession → LabSession → Bool
found u rs x = any (λ (r : LabSession). has_id x.id r && r.user_id == u) rs

no-found :
    (u : String) (x : LabSession) (rs : List LabSession)
    → count (has_id x.id) rs ≤ 0
    → (found u rs x ≡ false) × Owns u rs x
no-found u x [] h = (refl, tt)
no-found u x (r ∷ rs) h = elim (Bool-cases (has_id x.id r)) [
  | inl e ↦ absurd (ground (arith, e, h))
  | inr e ↦
      let rest = no-found u x rs (ground (arith, e, h)) in
      (ground (arith, e, rest.0), (ground (arith, e), rest.1))
]

only-Owns :
    (u : String) (x : LabSession) (rs : List LabSession)
    → count (has_id x.id) rs ≤ 1
    → found u rs x ≡ true
    → Owns u rs x
only-Owns u x [] h f = tt
only-Owns u x (r ∷ rs) h f = elim (Bool-cases (has_id x.id r)) [
  | inl e ↦
      let rest = no-found u x rs (ground (arith, e, h)) in (ground (arith, e, f, rest.0), rest.1)
  | inr e ↦ (ground (arith, e), only-Owns u x rs (ground (arith, e, h)) (ground (arith, e, f)))
]

found-weaken :
    (u : String) (r : LabSession) (todo rs : List LabSession)
    → All (λ x. found u rs x ≡ true) todo
    → All (λ x. found u (r ∷ rs) x ≡ true) todo
found-weaken u r [] rs h = tt
found-weaken u r (x ∷ todo) rs h = (ground (arith, h.0), found-weaken u r todo rs h.1)

found-where :
    (u : String) (rs : List LabSession)
    → All (λ x. found u rs x ≡ true) (where_rows (active_of u) rs)
found-where u [] = tt
found-where u (r ∷ rs) = elim (Bool-cases (active_of u r)) [
  | inl e ↦ rw e (ground (arith, e, eq_self r.id), found-weaken u r _ rs (found-where u rs))
  | inr e ↦ rw e (found-weaken u r _ rs (found-where u rs))
]

found-Owned :
    (u : String) (todo rs : List LabSession)
    → ((id : ℕ) → count (has_id id) rs ≤ 1)
    → All (λ x. found u rs x ≡ true) todo
    → Owned u todo rs
found-Owned u [] rs single h = tt
found-Owned u (x ∷ todo) rs single h =
    (only-Owns u x rs (single x.id) h.0, found-Owned u todo rs single h.1)

-- The user's active sessions, among rows with unique identifiers.
pub Owned-where :
    (u : String) (rs : List LabSession)
    → ((id : ℕ) → count (λ (r : LabSession). r.id == id) rs ≤ 1)
    → Owned u (where_rows (active_of u) rs) rs
Owned-where u rs single = found-Owned u _ rs single (found-where u rs)
