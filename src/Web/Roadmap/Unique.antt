-- ===== src/Web/Roadmap/Unique.antt =====
-- A set made of a list: the same members, each once.
use devops_lab.Prelude.{
  ℕ, ◌≤◌, ◌≡◌, refl, Bool, true, false, not, ◌&&◌, String, List, [], ◌∷◌, ◌++◌, string_eq, ◌==◌,
  count, where_rows, arith, eq_self, eq_of_beq, eq_flip, Bool-cases, inl, inr, ap, ◌∙◌, append-nil,
  sym,
}
use devops_lab.Web.Roadmap.{unique, includes}

-- How often a text stands in a list.
abbrev pub copies : String → List String → ℕ
copies n = count (λ y. y == n)

-- A test that cannot tell equal texts apart, on the rows of a filter.
pub includes-where :
    (p : String → Bool) (n : String) (xs : List String)
    → includes (where_rows p xs) n ≡ (includes xs n && p n)
includes-where p n [] = refl
includes-where p n (x ∷ xs) = elim (Bool-cases (x == n)) [
  | inl e ↦ rw (eq_of_beq x n e) (ground (arith, includes-where p n xs, eq_self n))
  | inr e ↦ ground (arith, includes-where p n xs, e)
]

pub copies-where :
    (p : String → Bool) (n : String) (xs : List String) → copies n (where_rows p xs) ≤ copies n xs
copies-where p n [] = omega arith
copies-where p n (x ∷ xs) = ground (arith, copies-where p n xs)

copies-none : (n : String) (xs : List String) → includes xs n ≡ false → copies n xs ≡ 0
copies-none n [] h = refl
copies-none n (x ∷ xs) h = ground (arith, copies-none n xs)

pub includes-unique : (n : String) (xs : List String) → includes (unique xs) n ≡ includes xs n
unfolding unique
includes-unique n [] = refl
includes-unique n (x ∷ xs) =
    ground
      (arith, includes-where (λ y. not (y == x)) n (unique xs), includes-unique n xs, eq_flip n x)

pub copies-unique : (n : String) (xs : List String) → copies n (unique xs) ≤ 1
unfolding unique
copies-unique n [] = omega arith
copies-unique n (x ∷ xs) = elim (Bool-cases (x == n)) [
  | inl e ↦
      let gone = includes-where (λ y. not (y == x)) n (unique xs) in
      ground
        (arith, e, eq_flip n x, gone, copies-none n (where_rows (λ y. not (y == x)) (unique xs)))
  | inr e ↦ ground (arith, e, copies-where (λ y. not (y == x)) n (unique xs), copies-unique n xs)
]

-- No text stands twice.
abbrev pub IsUnique : List String → Type 0
IsUnique [] = Unit
IsUnique (x ∷ xs) = (includes xs x ≡ false) × IsUnique xs

where-IsUnique : (p : String → Bool) (xs : List String) → IsUnique xs → IsUnique (where_rows p xs)
where-IsUnique p [] h = tt
where-IsUnique p (x ∷ xs) h = elim (Bool-cases (p x)) [
  | inl e ↦ rw e (ground (arith, includes-where p x xs, h.0), where-IsUnique p xs h.1)
  | inr e ↦ rw e (where-IsUnique p xs h.1)
]

pub unique-IsUnique : (xs : List String) → IsUnique (unique xs)
unfolding unique
unique-IsUnique [] = tt
unique-IsUnique (x ∷ xs) = (
  ground (arith, includes-where (λ y. not (y == x)) x (unique xs), eq_self x),
  where-IsUnique (λ y. not (y == x)) (unique xs) (unique-IsUnique xs),
)

where-others :
    (x : String) (xs ys : List String)
    → includes xs x ≡ false
    → where_rows (λ y. not (y == x)) (xs ++ ys) ≡ xs ++ where_rows (λ y. not (y == x)) ys
where-others x [] ys h = refl
where-others x (z ∷ xs) ys h = elim (Bool-cases (z == x)) [
  | inl e ↦ absurd (ground (arith, h, e))
  | inr e ↦ rw e (ap (λ l. z ∷ l) (where-others x xs ys (ground (arith, h, e))))
]

where-where :
    (x : String) (xs ys : List String)
    → where_rows (λ y. not (y == x)) (where_rows (λ y. not (includes xs y)) ys)
      ≡ where_rows (λ y. not (includes (x ∷ xs) y)) ys
where-where x xs [] = refl
where-where x xs (y ∷ ys) = ground (arith, where-where x xs ys, eq_flip y x)

where_rows-all : (ys : List String) → where_rows (λ y. true) ys ≡ ys
where_rows-all [] = refl
where_rows-all (y ∷ ys) = ap (λ l. y ∷ l) (where_rows-all ys)

-- The set of a list without copies and more: the list, then what is new.
unique-append :
    (xs ys : List String)
    → IsUnique xs
    → unique (xs ++ ys) ≡ xs ++ where_rows (λ y. not (includes xs y)) (unique ys)
unfolding unique
unique-append [] ys h = sym (where_rows-all (unique ys))
unique-append (x ∷ xs) ys h =
    ap (λ l. x ∷ l)
      (ap (where_rows (λ y. not (y == x))) (unique-append xs ys h.1)
        ∙ where-others x xs _ h.0
        ∙ ap (λ l. xs ++ l) (where-where x xs (unique ys)))

where-none :
    (p : String → Bool) (ys : List String)
    → ((n : String) → includes ys n ≡ true → p n ≡ false)
    → where_rows p ys ≡ []
where-none p [] h = refl
where-none p (y ∷ ys) h =
    ground (arith, h y, eq_self y, where-none p ys (λ n k. h n (ground (arith, k))))

-- Texts that a set has already do not change it.
pub unique-absorbs :
    (xs ys : List String)
    → IsUnique xs
    → ((n : String) → includes ys n ≡ true → includes xs n ≡ true)
    → unique (xs ++ ys) ≡ xs
unique-absorbs xs ys h k =
    unique-append xs ys h
    ∙ ap (λ l. xs ++ l)
        (where-none (λ y. not (includes xs y)) (unique ys)
          (λ n m. ground (arith, k n, includes-unique n ys, m)))
    ∙ append-nil xs
