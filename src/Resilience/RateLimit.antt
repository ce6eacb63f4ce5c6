-- ===== src/Resilience/RateLimit.antt =====
-- keetanetwork-anchor-client/src/resilience/rate_limit.rs. Methods on `&mut self` return the bucket.
pub mod Laws
pub mod Throughput
use anchor_rs.Prelude.{
  ℕ, ◌-◌, ◌/◌, ◌≤◌, min, u64_max, u32_max, leb, ◌==◌, if◌then◌else◌, saturating_add, saturating_sub,
  saturating_mul, div_ceil,
}

-- `MILLITOKENS_PER_TOKEN`
abbrev pub millitokens_per_token : ℕ
millitokens_per_token = 1_000

pub record TokenBucket : Type 0 where
  pub capacity_millitokens : ℕ
  pub refill_per_sec : ℕ
  pub tokens_millitokens : ℕ
  pub last_ms : ℕ

-- `TokenBucket::new`
unfoldable pub new : ℕ → ℕ → ℕ → TokenBucket
new capacity refill_per_sec now_ms =
    let capacity_millitokens = saturating_mul capacity millitokens_per_token in
    record {
      capacity_millitokens = capacity_millitokens;
      refill_per_sec = refill_per_sec;
      tokens_millitokens = capacity_millitokens;
      last_ms = now_ms;
    }

-- `TokenBucket::refill`
unfoldable pub refill : ℕ → TokenBucket → TokenBucket
refill now_ms b =
    let elapsed_ms = saturating_sub now_ms b.last_ms in
    if elapsed_ms == 0 then b else record b {
      tokens_millitokens =
          min (saturating_add b.tokens_millitokens (saturating_mul elapsed_ms b.refill_per_sec))
            b.capacity_millitokens;
      last_ms = now_ms;
    }

-- `Result<(), u64>`
pub data Take : Type 0 where
  taken : Take
  wait : ℕ → Take

take_refilled : TokenBucket → TokenBucket × Take
take_refilled b =
    if leb millitokens_per_token b.tokens_millitokens
    then (record b { tokens_millitokens = b.tokens_millitokens - millitokens_per_token }, taken)
    else if b.refill_per_sec == 0
    then (b, wait u64_max)
    else (b, wait (div_ceil (millitokens_per_token - b.tokens_millitokens) b.refill_per_sec))

-- `TokenBucket::try_take`
unfoldable pub try_take : ℕ → TokenBucket → TokenBucket × Take
unfolding refill take_refilled
try_take now_ms b = take_refilled (refill now_ms b)

-- `TokenBucket::available`
unfoldable pub available : ℕ → TokenBucket → TokenBucket × ℕ
unfolding refill
available now_ms b =
    let b' = refill now_ms b in
    (
      b',
      if leb (b'.tokens_millitokens / millitokens_per_token) u32_max
          then b'.tokens_millitokens / millitokens_per_token
          else u32_max,
    )
