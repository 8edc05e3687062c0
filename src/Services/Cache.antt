-- ===== src/Services/Cache.antt =====
-- The Redis client, over the keys that a service uses. Times are milliseconds; `EX` is in seconds.
-- A read at a time sees the value if its lifetime has not ended.
use devops_lab.Prelude.{
  ℕ, ◌+◌, ◌*◌, ◌≤◌, ◌≡◌, ◌≢◌, Option, none, some, suc, ltb, if◌then◌else◌, List, Bool, true, any,
  All, is_some,
}

pub record Redis (Key : Type 0) (Value : Type 0) : Type 1 where
  pub Kv : Type 0
  pub get : Kv → ℕ → Key → Option Value
  -- `SET key value EX seconds`, at a time
  pub set_ex : Kv → ℕ → Key → Value → ℕ → Kv
  pub del : Kv → Key → Kv
  -- the number that `INCR` reads, 0 for a missing key
  pub counter : Kv → ℕ → Key → ℕ
  pub incr : Kv → ℕ → Key → Kv
  pub expire : Kv → ℕ → Key → ℕ → Kv
  -- The batches of keys that a full `SCAN ... MATCH` iteration returns.
  pub scan : Kv → (Key → Bool) → List (List Key)
  pub get-set_ex_self :
      (s : Kv) (t now : ℕ) (k : Key) (v : Value) (ttl : ℕ)
      → t ≤ now
      → get (set_ex s t k v ttl) now k ≡ (if ltb now (t + ttl * 1000) then some v else none)
  pub get-set_ex_ne :
      (s : Kv) (t now : ℕ) (j k : Key) (v : Value) (ttl : ℕ)
      → j ≢ k
      → get (set_ex s t k v ttl) now j ≡ get s now j
  pub get-del_self : (s : Kv) (now : ℕ) (k : Key) → get (del s k) now k ≡ none
  pub get-del_ne : (s : Kv) (now : ℕ) (j k : Key) → j ≢ k → get (del s k) now j ≡ get s now j
  pub counter-incr_self :
      (s : Kv) (t : ℕ) (k : Key) → counter (incr s t k) t k ≡ suc (counter s t k)
  pub get-incr_ne : (s : Kv) (t now : ℕ) (j k : Key) → j ≢ k → get (incr s t k) now j ≡ get s now j
  pub counter-expire :
      (s : Kv) (t : ℕ) (j k : Key) (ttl : ℕ)
      → 0 ≢ ttl
      → counter (expire s t k ttl) t j ≡ counter s t j
  pub get-expire_ne :
      (s : Kv) (t now : ℕ) (j k : Key) (ttl : ℕ)
      → j ≢ k
      → get (expire s t k ttl) now j ≡ get s now j
  -- An iteration returns every matching key that is there, and only matching keys.
  pub scan_all :
      (s : Kv) (p : Key → Bool) (now : ℕ) (k : Key)
      → p k ≡ true
      → is_some (get s now k) ≡ true
      → (q : Key → Bool) → q k ≡ true
      → any (any q) (scan s p) ≡ true
  pub scan_only : (s : Kv) (p : Key → Bool) → All (All (λ k. p k ≡ true)) (scan s p)
