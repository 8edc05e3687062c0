-- ===== src/Services/Samples.antt =====
-- A table as its list of rows, and a Redis as a function of the keys.
use devops_lab.Prelude.{
  ℕ, ◌≡◌, refl, Bool, true, false, Option, none, some, List, [], ◌∷◌, ◌++◌, not, any, count,
  where_rows, update_where, if◌then◌else◌, is_some, All, subst, inl, inr, Bool-cases, ◌+◌, ◌*◌, ltb,
  suc, ◌≢◌, ap, ◌∙◌, arith,
}
use mathlib.Core.Logic.{ite, if_pos, if_neg}
use devops_lab.Services.Database.{Prisma}
use devops_lab.Services.Cache.{Redis}

module _ {Row : Type 0} where
  unfoldable pub find : (Row → Bool) → List Row → Option Row
  find p [] = none
  find p (r ∷ rs) = if p r then some r else find p rs

  pub find-some :
      (p : Row → Bool) (rs : List Row) (r : Row)
      → find p rs ≡ some r
      → (p r ≡ true) × ((q : Row → Bool) → q r ≡ true → any q rs ≡ true)
  unfolding find
  find-some p [] r e = cc
  find-some p (x ∷ rs) r e = elim (Bool-cases (p x)) [
    | inl h ↦ (ground arith, λ q k. ground arith)
    | inr h ↦
        let rest = find-some p rs r (ground arith) in (rest.0, λ q k. ground (arith, rest.1 q k))
  ]

  pub find-none : (p : Row → Bool) (rs : List Row) → find p rs ≡ none → any p rs ≡ false
  unfolding find
  find-none p [] e = refl
  find-none p (x ∷ rs) e = ground (arith, find-none p rs)

abbrev pub lists : Prisma
lists = record {
  Table = List;
  rows = λ {Row} t. t;
  find_first = λ {Row} p t. find p t;
  find_many = λ {Row} p t. where_rows p t;
  count_rows = λ {Row} p t. count p t;
  create = λ {Row} r t. t ++ r ∷ [];
  update_many = λ {Row} p f t. update_where p f t;
  delete_many = λ {Row} p t. where_rows (λ r. not (p r)) t;
  find_first-some = λ {Row} p t r e. find-some p t r e;
  find_first-none = λ {Row} p t e. find-none p t e;
  find_many_lem = λ {Row} p t. refl;
  count_rows_lem = λ {Row} p t. refl;
  rows-create = λ {Row} r t. refl;
  rows-update_many = λ {Row} p f t. refl;
  rows-delete_many = λ {Row} p t. refl;
}

-- A value and the time at which its lifetime ends, and the number that counts a key.
pub record Cell (Value : Type 0) : Type 0 where
  pub value : Option Value
  pub ends : ℕ
  pub counted : ℕ

abbrev pub alive : {Value : Type 0} → Cell Value → ℕ → Option Value
alive c now = if ltb now c.ends then c.value else none

abbrev pub empty_cell : {Value : Type 0} → Cell Value
empty_cell = record { value = none; ends = 0; counted = 0 }

pub never : {Value : Type 0} (now : ℕ) → alive {Value = Value} empty_cell now ≡ none
never now = ground arith

-- The writes of a key are a list, the latest first.
module _ {Key : Type 0} (dec : Discrete Key) {Value : Type 0} where
  abbrev pub cell_of : List (Key × Cell Value) → Key → Cell Value
  cell_of [] j = empty_cell
  cell_of ((k, c) ∷ s) j = ite (dec j k) c (cell_of s j)

  pub cell_self :
      (s : List (Key × Cell Value)) (k : Key) (c : Cell Value) → cell_of ((k, c) ∷ s) k ≡ c
  cell_self s k c = if_pos (dec k k) refl _ _

  pub cell_ne :
      (s : List (Key × Cell Value)) (j k : Key) (c : Cell Value)
      → j ≢ k
      → cell_of ((k, c) ∷ s) j ≡ cell_of s j
  cell_ne s j k c h = if_neg (dec j k) h _ _

  abbrev pub keys_of : (Key → Bool) → List (Key × Cell Value) → List Key
  keys_of p [] = []
  keys_of p ((k, c) ∷ s) = if p k then k ∷ keys_of p s else keys_of p s

  pub keys_of-all :
      (p : Key → Bool) (s : List (Key × Cell Value)) (now : ℕ) (k : Key)
      → p k ≡ true
      → is_some (alive (cell_of s k) now) ≡ true
      → (q : Key → Bool) → q k ≡ true
      → any q (keys_of p s) ≡ true
  keys_of-all p [] now k pk h q qk = absurd (ground (arith, h))
  keys_of-all p ((j, c) ∷ s) now k pk h q qk = elim (dec k j) [
    | yes e ↦
        let pj : p j ≡ true = subst (λ x. p x ≡ true) e pk in
        let qj : q j ≡ true = subst (λ x. q x ≡ true) e qk in ground (arith, pj, qj)
    | no n ↦
        let rest =
          keys_of-all p s now k pk (subst (λ x. is_some (alive x now) ≡ true) (cell_ne s k j c n) h)
            q qk in
        ground (arith, rest)
  ]

  pub keys_of-only :
      (p : Key → Bool) (s : List (Key × Cell Value)) → All (λ k. p k ≡ true) (keys_of p s)
  keys_of-only p [] = tt
  keys_of-only p ((k, c) ∷ s) = elim (Bool-cases (p k)) [
    | inl e ↦ rw e (e, keys_of-only p s)
    | inr e ↦ rw e (keys_of-only p s)
  ]

  abbrev pub keyed : Redis Key Value
  keyed = record {
    Kv = List (Key × Cell Value);
    get = λ s now k. alive (cell_of s k) now;
    set_ex = λ s t k v ttl. (k, record { value = some v; ends = t + ttl * 1000; counted = 0 }) ∷ s;
    del = λ s k. (k, empty_cell) ∷ s;
    counter = λ s t k. (cell_of s k).counted;
    incr = λ s t k. (k, record (cell_of s k) { counted = suc (cell_of s k).counted }) ∷ s;
    expire = λ s t k ttl. s;
    scan = λ s p. keys_of p s ∷ [];
    get-set_ex_self = λ s t now k v ttl h. ap (λ c. alive c now) (cell_self s k _);
    get-set_ex_ne = λ s t now j k v ttl h. ap (λ c. alive c now) (cell_ne s j k _ h);
    get-del_self = λ s now k. ap (λ c. alive c now) (cell_self s k _) ∙ never now;
    get-del_ne = λ s now j k h. ap (λ c. alive c now) (cell_ne s j k _ h);
    counter-incr_self = λ s t k. ap (λ c. c.counted) (cell_self s k _);
    get-incr_ne = λ s t now j k h. ap (λ c. alive c now) (cell_ne s j k _ h);
    counter-expire = λ s t j k ttl h. refl;
    get-expire_ne = λ s t now j k ttl h. refl;
    scan_all = λ s p now k pk h q qk. ground (arith, keys_of-all p s now k pk h q qk);
    scan_only = λ s p. (keys_of-only p s, tt);
  }
