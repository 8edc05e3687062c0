-- ===== src/Web/Terminal/Backoff.antt =====
-- The delays between the attempts to reconnect.
use devops_lab.Prelude.{ℕ, zero, suc, ◌*◌, ◌^◌, ◌≤◌, ◌<◌, ◌≡◌, ◌⊎◌, inl, inr, min, arith}
use devops_lab.Web.Terminal.{backoff_ms, random_scale, base_backoff_ms, max_backoff_ms}

abbrev pub base_of : ℕ → ℕ
base_of attempt = min (base_backoff_ms * 2 ^ attempt) max_backoff_ms

power_positive : (n : ℕ) → 1 ≤ 2 ^ n
power_positive zero = omega arith
power_positive (suc n) = omega (arith, power_positive n)

-- The base of the delay doubles up to the cap.
base_of-cases :
    (attempt : ℕ)
    → (base_of attempt ≡ 1000)
      ⊎ ((base_of attempt ≡ 2000)
          ⊎ ((base_of attempt ≡ 4000) ⊎ ((base_of attempt ≡ 8000) ⊎ (base_of attempt ≡ 15000))))
base_of-cases zero = ground arith
base_of-cases (suc zero) = ground arith
base_of-cases (suc (suc zero)) = ground arith
base_of-cases (suc (suc (suc zero))) = ground arith
base_of-cases (suc (suc (suc (suc n)))) = ground (arith, power_positive n)

-- If the random number is below one, every delay lies within a tenth of its base, which doubles
-- from one second up to fifteen: it is at least 0.9 seconds and at most 16.5.
pub backoff_ms-bounds :
    (attempt random : ℕ)
    → random < random_scale
    → (9 * base_of attempt ≤ 10 * backoff_ms attempt random)
      × (10 * backoff_ms attempt random ≤ 11 * base_of attempt)
      × (900 ≤ backoff_ms attempt random)
      × (backoff_ms attempt random ≤ 16500)
unfolding backoff_ms
backoff_ms-bounds attempt random h = elim (base_of-cases attempt) [
  | inl e ↦ rw e (omega arith, omega arith, omega arith, omega arith)
  | inr (inl e) ↦ rw e (omega arith, omega arith, omega arith, omega arith)
  | inr (inr (inl e)) ↦ rw e (omega arith, omega arith, omega arith, omega arith)
  | inr (inr (inr (inl e))) ↦ rw e (omega arith, omega arith, omega arith, omega arith)
  | inr (inr (inr (inr e))) ↦ rw e (omega arith, omega arith, omega arith, omega arith)
]
