-- ===== src/Prelude/Sorting.antt =====
-- Stable sorting, the greatest key first: JavaScript's `sort` by a difference, and `orderBy: "desc"`.
use Prim.Native.Nat.{ℕ, zero, suc, ◌≤◌}
use mathlib.Core.Path.{◌≡◌, refl, ap, sym, ◌∙◌}
use mathlib.Core.Logic.{inl, inr}
use mathlib.Core.Bool.{Bool, true, false}
use mathlib.Core.List.{List, [], ◌∷◌, ◌++◌, map}
use native.Mathlib.Omega.{arith}
use devops_lab.Prelude.Tests.{if◌then◌else◌, Bool-cases, leb}
use devops_lab.Prelude.Lists.{take, All, All-take}

module _ {A : Type 0} (key : A → ℕ) where
  unfoldable pub sorts_before : A → A → Bool
  sorts_before x y = leb (key y) (key x)

  -- Before the first element whose key is not greater.
  unfoldable pub insert_desc : A → List A → List A
  insert_desc x [] = x ∷ []
  insert_desc x (y ∷ ys) = if sorts_before x y then x ∷ y ∷ ys else y ∷ insert_desc x ys

  unfoldable pub sort_desc : List A → List A
  unfolding insert_desc
  sort_desc [] = []
  sort_desc (x ∷ xs) = insert_desc x (sort_desc xs)

  unfoldable pub merge_desc : List A → List A → List A
  merge_desc [] ys = ys
  merge_desc (x ∷ xs) [] = x ∷ xs
  merge_desc (x ∷ xs) (y ∷ ys) =
      let left = merge_desc xs (y ∷ ys) in
      let right = merge_desc (x ∷ xs) ys in if sorts_before x y then x ∷ left else y ∷ right

  abbrev pub IsSorted : List A → Type 0
  IsSorted [] = Unit
  IsSorted (x ∷ xs) = All (λ y. sorts_before x y ≡ true) xs × IsSorted xs

  sorts_before_trans :
      (x y z : A) → sorts_before x y ≡ true → sorts_before y z ≡ true → sorts_before x z ≡ true
  unfolding sorts_before
  sorts_before_trans x y z p q = ground (arith, p, q)

  later : (x a b : A) → sorts_before a b ≡ false → sorts_before x b ≡ true → sorts_before x a ≡ true
  unfolding sorts_before
  later x a b p q = ground (arith, p, q)

  merge_later :
      (x a : A) (xs : List A) (b : A) (ys : List A)
      → sorts_before a b ≡ false
      → sorts_before x b ≡ false
      → b ∷ merge_desc (insert_desc x (a ∷ xs)) ys ≡ merge_desc (insert_desc x (a ∷ xs)) (b ∷ ys)
  unfolding insert_desc merge_desc
  merge_later x a xs b ys ab xb = elim (Bool-cases (sorts_before x a)) [
    | inl xa ↦ rw xa (rw xb refl)
    | inr xa ↦ rw xa (rw ab refl)
  ]

  insert-merge :
      (x : A) (xs ys : List A) → insert_desc x (merge_desc xs ys) ≡ merge_desc (insert_desc x xs) ys
  unfolding insert_desc merge_desc
  insert-merge x [] [] = refl
  insert-merge x [] (y ∷ ys) = elim (Bool-cases (sorts_before x y)) [
    | inl e ↦ rw e refl
    | inr e ↦ rw e (ap (λ l. y ∷ l) (insert-merge x [] ys))
  ]
  insert-merge x (a ∷ xs) [] = elim (Bool-cases (sorts_before x a)) [
    | inl e ↦ rw e refl
    | inr e ↦ rw e refl
  ]
  insert-merge x (a ∷ xs) (b ∷ ys) = elim (Bool-cases (sorts_before a b)) [
    | inl ab ↦ elim (Bool-cases (sorts_before x a)) [
      | inl xa ↦ rw ab (rw xa (rw (sorts_before_trans x a b xa ab) (rw ab refl)))
      | inr xa ↦ rw (ab, xa, ab) (ap (λ l. a ∷ l) (insert-merge x xs (b ∷ ys)))
    ]
    | inr ab ↦ elim (Bool-cases (sorts_before x b)) [
      | inl xb ↦ rw ab (rw xb (rw (later x a b ab xb) (rw (xb, ab) refl)))
      | inr xb ↦
          rw (ab, xb) (ap (λ l. b ∷ l) (insert-merge x (a ∷ xs) ys) ∙ merge_later x a xs b ys ab xb)
    ]
  ]

  All-insert :
      (x z : A) (xs : List A)
      → sorts_before z x ≡ true
      → All (λ y. sorts_before z y ≡ true) xs
      → All (λ y. sorts_before z y ≡ true) (insert_desc x xs)
  unfolding insert_desc
  All-insert x z [] e h = (e, tt)
  All-insert x z (y ∷ ys) e h = elim (Bool-cases (sorts_before x y)) [
    | inl p ↦ rw p (e, h)
    | inr p ↦ rw p (h.0, All-insert x z ys e h.1)
  ]

  All-before :
      (x y : A) (ys : List A)
      → sorts_before x y ≡ true
      → All (λ z. sorts_before y z ≡ true) ys
      → All (λ z. sorts_before x z ≡ true) ys
  All-before x y [] e h = tt
  All-before x y (z ∷ ys) e h = (sorts_before_trans x y z e h.0, All-before x y ys e h.1)

  sorts_before_total : (x y : A) → sorts_before x y ≡ false → sorts_before y x ≡ true
  unfolding sorts_before
  sorts_before_total x y p = ground (arith, p)

  insert-IsSorted : (x : A) (xs : List A) → IsSorted xs → IsSorted (insert_desc x xs)
  unfolding insert_desc
  insert-IsSorted x [] h = (tt, tt)
  insert-IsSorted x (y ∷ ys) h = elim (Bool-cases (sorts_before x y)) [
    | inl p ↦ rw p ((p, All-before x y ys p h.0), h)
    | inr p ↦ rw p (All-insert x y ys (sorts_before_total x y p) h.0, insert-IsSorted x ys h.1)
  ]

  pub sort-IsSorted : (xs : List A) → IsSorted (sort_desc xs)
  unfolding sort_desc
  sort-IsSorted [] = tt
  sort-IsSorted (x ∷ xs) = insert-IsSorted x (sort_desc xs) (sort-IsSorted xs)

  insert_first :
      (x : A) (xs : List A) → All (λ y. sorts_before x y ≡ true) xs → insert_desc x xs ≡ x ∷ xs
  unfolding insert_desc
  insert_first x [] h = refl
  insert_first x (y ∷ ys) h = rw h.0 refl

  sort_id : (xs : List A) → IsSorted xs → sort_desc xs ≡ xs
  unfolding sort_desc
  sort_id [] h = refl
  sort_id (x ∷ xs) h = ap (insert_desc x) (sort_id xs h.1) ∙ insert_first x xs h.0

  take-IsSorted : (n : ℕ) (xs : List A) → IsSorted xs → IsSorted (take n xs)
  take-IsSorted zero xs h = tt
  take-IsSorted (suc n) [] h = tt
  take-IsSorted (suc n) (x ∷ xs) h =
      (All-take (λ y. sorts_before x y ≡ true) n xs h.0, take-IsSorted n xs h.1)

  pub sort-append :
      (xs ys : List A) → sort_desc (xs ++ ys) ≡ merge_desc (sort_desc xs) (sort_desc ys)
  unfolding sort_desc merge_desc
  sort-append [] ys = refl
  sort-append (x ∷ xs) ys =
      ap (insert_desc x) (sort-append xs ys) ∙ insert-merge x (sort_desc xs) (sort_desc ys)

  take-take_le : (n i : ℕ) (xs : List A) → n ≤ i → take n (take i xs) ≡ take n xs
  take-take_le zero i xs h = refl
  take-take_le (suc n) zero xs h = absurd (omega arith)
  take-take_le (suc n) (suc i) [] h = refl
  take-take_le (suc n) (suc i) (x ∷ xs) h = ap (λ l. x ∷ l) (take-take_le n i xs (omega arith))

  take-merge :
      (n i j : ℕ) (xs ys : List A)
      → n ≤ i
      → n ≤ j
      → take n (merge_desc (take i xs) (take j ys)) ≡ take n (merge_desc xs ys)
  unfolding merge_desc
  take-merge zero i j xs ys hi hj = refl
  take-merge (suc n) zero j xs ys hi hj = absurd (omega arith)
  take-merge (suc n) (suc i) zero xs ys hi hj = absurd (omega arith)
  take-merge (suc n) (suc i) (suc j) [] [] hi hj = refl
  take-merge (suc n) (suc i) (suc j) [] (y ∷ ys) hi hj =
      ap (λ l. y ∷ l) (take-take_le n j ys (omega arith))
  take-merge (suc n) (suc i) (suc j) (x ∷ xs) [] hi hj =
      ap (λ l. x ∷ l) (take-take_le n i xs (omega arith))
  take-merge (suc n) (suc i) (suc j) (x ∷ xs) (y ∷ ys) hi hj =
      elim (Bool-cases (sorts_before x y)) [
        | inl e ↦
            rw e (ap (λ l. x ∷ l) (take-merge n i (suc j) xs (y ∷ ys) (omega arith) (omega arith)))
        | inr e ↦
            rw e (ap (λ l. y ∷ l) (take-merge n (suc i) j (x ∷ xs) ys (omega arith) (omega arith)))
      ]

  -- The first of two lists together are among the first of each.
  pub take-sort-append :
      (n : ℕ) (xs ys : List A)
      → take n (sort_desc (take n (sort_desc xs) ++ take n (sort_desc ys)))
        ≡ take n (sort_desc (xs ++ ys))
  take-sort-append n xs ys =
      let sx = sort_desc xs in
      let sy = sort_desc ys in
      let idx = sort_id (take n sx) (take-IsSorted n sx (sort-IsSorted xs)) in
      let idy = sort_id (take n sy) (take-IsSorted n sy (sort-IsSorted ys)) in
      ap (take n) (
        sort-append (take n sx) (take n sy)
        ∙ ap (λ l. merge_desc l (sort_desc (take n sy))) idx
        ∙ ap (merge_desc (take n sx)) idy)
      ∙ take-merge n n n sx sy (omega arith) (omega arith)
      ∙ ap (take n) (sym (sort-append xs ys))

module _ {A B : Type 0} (key : B → ℕ) (f : A → B) where
  map-insert :
      (x : A) (xs : List A)
      → map f (insert_desc (λ a. key (f a)) x xs) ≡ insert_desc key (f x) (map f xs)
  unfolding insert_desc sorts_before
  map-insert x [] = refl
  map-insert x (y ∷ ys) = elim (Bool-cases (sorts_before key (f x) (f y))) [
    | inl e ↦ rw e refl
    | inr e ↦ rw e (ap (λ l. f y ∷ l) (map-insert x ys))
  ]

  pub map-sort : (xs : List A) → map f (sort_desc (λ a. key (f a)) xs) ≡ sort_desc key (map f xs)
  unfolding sort_desc
  map-sort [] = refl
  map-sort (x ∷ xs) =
      map-insert x (sort_desc (λ a. key (f a)) xs) ∙ ap (insert_desc key (f x)) (map-sort xs)

module _ {A : Type 0} (key : A → ℕ) (Q : A → Type 0) where
  insert-All : (x : A) (xs : List A) → Q x → All Q xs → All Q (insert_desc key x xs)
  unfolding insert_desc
  insert-All x [] q h = (q, tt)
  insert-All x (y ∷ ys) q h = elim (Bool-cases (sorts_before key x y)) [
    | inl e ↦ rw e (q, h)
    | inr e ↦ rw e (h.0, insert-All x ys q h.1)
  ]

  pub sort-All : (xs : List A) → All Q xs → All Q (sort_desc key xs)
  unfolding sort_desc
  sort-All [] h = tt
  sort-All (x ∷ xs) h = insert-All x (sort_desc key xs) h.0 (sort-All xs h.1)
