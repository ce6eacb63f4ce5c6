-- ===== src/Resilience/Backoff/Laws.antt =====
-- The schedule of delays, its jitter, and the budget of a lease:
-- keetanetwork-anchor-client/src/resilience/backoff.rs and lease.rs.
use native.Mathlib.Nat.{pow-le-pow_right, mul-le-mul_left}
use anchor_rs.Prelude.{
  ℕ, zero, suc, ◌+◌, ◌*◌, ◌/◌, ◌^◌, ◌≤◌, ◌<◌, min, ◌≡◌, ◌↔◌, Option, none, some, arith, u64_max,
}
use anchor_rs.Resilience.Backoff.{
  Backoff, delay, Jitter, verbatim, full, equal, apply, lease_work_budget_ms,
}

-- The attempt is below the retry ceiling, where there is one.
abbrev pub Within : Option ℕ → ℕ → Type 0
Within none attempt = Unit
Within (some most) attempt = attempt < most

product_large : (base growth : ℕ) → 0 < base → u64_max < growth → u64_max < base * growth
product_large base growth h k = grind arith

delay_arith_large :
    (base growth most : ℕ)
    → most ≤ u64_max
    → u64_max < growth
    → min (min (base * u64_max) u64_max) most ≡ min (base * growth) most
delay_arith_large zero growth most h k = omega arith
delay_arith_large (suc base) growth most h k = grind arith

delay_arith :
    (base growth most : ℕ)
    → most ≤ u64_max
    → (min (min (base * growth) u64_max) most ≡ min (base * growth) most)
      × (u64_max < growth → min (min (base * u64_max) u64_max) most ≡ min (base * growth) most)
delay_arith base growth most h = (omega arith, λ k. delay_arith_large base growth most h k)

-- Saturation never shows: within the retry ceiling, the delay is exactly the truncated exponential
-- `min (base * factor ^ attempt) max`, computed without bounds, for a ceiling that is a `u64`.
pub delay-exact :
    (b : Backoff) (attempt : ℕ)
    → b.max_ms ≤ u64_max
    → Within b.max_retries attempt
    → delay b attempt ≡ some (min (b.base_ms * b.factor ^ attempt) b.max_ms)
unfolding delay
delay-exact b attempt h k = ground (
  arith,
  product_large b.base_ms (b.factor ^ attempt),
  delay_arith b.base_ms (b.factor ^ attempt) b.max_ms h,
)

Within-of_delay :
    (b : Backoff) (attempt : ℕ) {d : ℕ} → delay b attempt ≡ some d → Within b.max_retries attempt
unfolding delay
Within-of_delay b attempt h = ground arith

-- The schedule ends exactly at the retry ceiling.
pub delay-eq-none_iff :
    (b : Backoff) (attempt : ℕ)
    → (delay b attempt ≡ none) ↔ ((most : ℕ) × (b.max_retries ≡ some most) × (most ≤ attempt))
unfolding delay
delay-eq-none_iff b attempt = grind arith

-- With a growth factor of at least 1 the delays never shrink from one attempt to a later one.
pub delay_mono :
    (b : Backoff) (i j : ℕ) {d e : ℕ}
    → b.max_ms ≤ u64_max
    → 0 < b.factor
    → i ≤ j
    → delay b i ≡ some d
    → delay b j ≡ some e
    → d ≤ e
delay_mono b i j h f k p q =
    let more = mul-le-mul_left b.base_ms (pow-le-pow_right f k) in
    ground
      (arith, Within-of_delay b i p, Within-of_delay b j q, delay-exact b i h, delay-exact b j h)

-- A perturbed delay stays at or below the delay; `Equal` keeps it in the upper half too.
pub apply_bounds :
    (j : Jitter) (delay_ms rand : ℕ) {v : ℕ}
    → apply j delay_ms rand ≡ some v
    → (v ≤ delay_ms) × (j ≡ equal → delay_ms / 2 ≤ v)
unfolding apply
apply_bounds verbatim delay_ms rand h = ground arith
apply_bounds full delay_ms rand h = ground arith
apply_bounds equal delay_ms rand h = ground arith

-- For a `u64` delay the perturbation panics exactly for full jitter of a delay of `u64::MAX`.
pub apply-eq-none_iff :
    (j : Jitter) (delay_ms rand : ℕ)
    → delay_ms ≤ u64_max
    → (apply j delay_ms rand ≡ none) ↔ ((j ≡ full) × (delay_ms ≡ u64_max))
unfolding apply
apply-eq-none_iff verbatim delay_ms rand h = ground arith
apply-eq-none_iff full delay_ms rand h = ground arith
apply-eq-none_iff equal delay_ms rand h = ground arith

-- The budget never exceeds the lease, keeps at least nine tenths of it, and reserves at most five
-- seconds; a lease of ten milliseconds or more keeps a margin.
pub lease_work_budget_bounds :
    (lease_ms : ℕ)
    → (lease_work_budget_ms lease_ms ≤ lease_ms)
      × (lease_ms * 9 ≤ lease_work_budget_ms lease_ms * 10)
      × (lease_ms ≤ lease_work_budget_ms lease_ms + 5_000)
      × (10 ≤ lease_ms → lease_work_budget_ms lease_ms < lease_ms)
unfolding lease_work_budget_ms
lease_work_budget_bounds lease_ms = omega arith
