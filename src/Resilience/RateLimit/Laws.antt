-- ===== src/Resilience/RateLimit/Laws.antt =====
-- Single takes from a token bucket: keetanetwork-anchor-client/src/resilience/rate_limit.rs.
use native.Mathlib.Nat.{div-lt_iff_lt-mul}
use anchor_rs.Prelude.{
  ℕ, ◌+◌, ◌-◌, ◌*◌, ◌≤◌, ◌<◌, ◌≡◌, ◌≢◌, ◌⊎◌, inl, inr, refl, ap, subst, ◌↔◌, arith, u64_max,
  u32_max, div_ceil,
}
use anchor_rs.Resilience.RateLimit.{
  TokenBucket, new, refill, Take, taken, wait, take_refilled, try_take, millitokens_per_token,
}

-- A bucket never holds more than its capacity, and all its fields are `u64` values.
pub record IsValid (b : TokenBucket) : Type 0 where
  pub within : b.tokens_millitokens ≤ b.capacity_millitokens
  pub capacity_u64 : b.capacity_millitokens ≤ u64_max
  pub refill_u32 : b.refill_per_sec ≤ u32_max

pub new-IsValid : (capacity rate now_ms : ℕ) → rate ≤ u32_max → IsValid (new capacity rate now_ms)
unfolding new
new-IsValid capacity rate now_ms h = ground arith

refill-IsValid : (now_ms : ℕ) {b : TokenBucket} → IsValid b → IsValid (refill now_ms b)
unfolding refill
refill-IsValid now_ms v = ground arith

take_refilled-IsValid : {b : TokenBucket} → IsValid b → IsValid (take_refilled b).0
unfolding take_refilled
take_refilled-IsValid v = ground arith

-- Taking a token, at any time and with any outcome, keeps the bucket within its capacity.
pub try_take-IsValid : (now_ms : ℕ) (b : TokenBucket) → IsValid b → IsValid (try_take now_ms b).0
unfolding try_take
try_take-IsValid now_ms b v = take_refilled-IsValid (refill-IsValid now_ms v)

-- `div_ceil` is the least quotient that covers the dividend.
pub div_ceil-le_iff : (a r n : ℕ) → 0 < r → (div_ceil a r ≤ n) ↔ (a ≤ n * r)
div_ceil-le_iff a r n h =
    let (to, from) = div-lt_iff_lt-mul {k = r} {x = a + r - 1} {y = n + 1} h in
    (λ p. omega (arith, to (omega arith)), λ p. omega (arith, from (omega arith)))

-- What a refusal leaves, and the wait that it names.
record Refused (now_ms w : ℕ) (b b' : TokenBucket) : Type 0 where
  short : b'.tokens_millitokens < millitokens_per_token
  capacity : b'.capacity_millitokens ≡ b.capacity_millitokens
  rate : b'.refill_per_sec ≡ b.refill_per_sec
  now : b'.last_ms ≡ now_ms
  named : w ≡ div_ceil (millitokens_per_token - b'.tokens_millitokens) b.refill_per_sec

try_take-Refused :
    (now_ms w : ℕ) (b : TokenBucket)
    → 0 < b.refill_per_sec
    → (try_take now_ms b).1 ≡ wait w
    → b.last_ms ≤ now_ms
    → Refused now_ms w b (try_take now_ms b).0
unfolding try_take
try_take-Refused now_ms w b r e l = ground arith

-- A short bucket yields a token after `d` milliseconds exactly if the refill covers what is missing.
taken_iff_covered :
    (d : ℕ) (b : TokenBucket)
    → b.tokens_millitokens < millitokens_per_token
    → millitokens_per_token ≤ b.capacity_millitokens
    → ((try_take (b.last_ms + d) b).1 ≡ taken)
      ↔ (millitokens_per_token - b.tokens_millitokens ≤ d * b.refill_per_sec)
unfolding try_take
taken_iff_covered d b h c = grind arith

-- When `try_take` refuses with a wait, then a take `d` milliseconds later succeeds exactly if `d` is
-- at least that wait: it is enough, and no shorter one is. The bucket refills and can hold a
-- token, and the clock has not gone back.
pub wait-exact :
    (now_ms d w : ℕ) (b : TokenBucket)
    → 0 < b.refill_per_sec
    → millitokens_per_token ≤ b.capacity_millitokens
    → (try_take now_ms b).1 ≡ wait w
    → b.last_ms ≤ now_ms
    → ((try_take (now_ms + d) (try_take now_ms b).0).1 ≡ taken) ↔ (w ≤ d)
wait-exact now_ms d w b r c e l =
    let refused = try_take-Refused now_ms w b r e l in
    let b' = (try_take now_ms b).0 in
    let covered = taken_iff_covered d b' refused.short (omega arith) in
    let least =
      div_ceil-le_iff (millitokens_per_token - b'.tokens_millitokens) b.refill_per_sec d r in
    let rate : d * b'.refill_per_sec ≡ d * b.refill_per_sec = ap (λ (k : ℕ). d * k) refused.rate in
    subst (λ (now : ℕ). ((try_take (now + d) b').1 ≡ taken) ↔ (w ≤ d)) refused.now
      (
        λ t. rw refused.named (least.1 (rw rate at (covered.0 t))),
        λ p. covered.1 (rw rate (least.0 (rw refused.named at p))),
      )

pub Take-cases : (t : Take) → (t ≡ taken) ⊎ ((ms : ℕ) × (t ≡ wait ms))
Take-cases taken = inl refl
Take-cases (wait ms) = inr (ms, refl)

div_ceil-le_self : (a r : ℕ) → 0 < r → div_ceil a r ≤ a
div_ceil-le_self a r h = (div_ceil-le_iff a r a h).1 (grind arith)

take_refilled-wait-le :
    (ms : ℕ) (b : TokenBucket) → 0 < b.refill_per_sec → (take_refilled b).1 ≡ wait ms → ms ≤ 1_000
unfolding take_refilled
take_refilled-wait-le ms b r h =
    ground
      (arith, div_ceil-le_self (millitokens_per_token - b.tokens_millitokens) b.refill_per_sec r)

refill-rate : (now : ℕ) (b : TokenBucket) → (refill now b).refill_per_sec ≡ b.refill_per_sec
unfolding refill
refill-rate now b = ground arith

-- With a refill rate, a refusal names a wait of at most a second.
pub wait-le :
    (now ms : ℕ) (b : TokenBucket)
    → 0 < b.refill_per_sec
    → (try_take now b).1 ≡ wait ms
    → ms ≤ 1_000
wait-le now ms b r h =
    take_refilled-wait-le ms (refill now b) (rw (refill-rate now b) r) (unfold try_take in h)

pub try_take-rate :
    (now : ℕ) (b : TokenBucket) → (try_take now b).0.refill_per_sec ≡ b.refill_per_sec
unfolding try_take
try_take-rate now b = ground arith

pub try_take-capacity :
    (now : ℕ) (b : TokenBucket) → (try_take now b).0.capacity_millitokens ≡ b.capacity_millitokens
unfolding try_take
try_take-capacity now b = ground arith

pub no_token :
    (now : ℕ) (b : TokenBucket)
    → IsValid b
    → b.capacity_millitokens < millitokens_per_token
    → (try_take now b).1 ≢ taken
unfolding try_take
no_token now b v c = ground arith

pub no_refill-shed :
    (now ms : ℕ) (b : TokenBucket)
    → b.refill_per_sec ≡ 0
    → (try_take now b).1 ≡ wait ms
    → ms ≡ u64_max
unfolding try_take
no_refill-shed now ms b r h = ground arith
