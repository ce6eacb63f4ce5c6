-- ===== src/Resilience/Tests.antt =====
-- The resilience theorems at concrete inputs.
use anchor_rs.Prelude.{
  ℕ, ◌+◌, ◌-◌, ◌*◌, ◌^◌, ◌≤◌, ◌≡◌, ◌≢◌, ◌↔◌, refl, min, none, some, [], ◌∷◌, u64_max, arith,
}
use anchor_rs.Http.Response
use anchor_rs.Http.Errors.{resilience, rate_limited, transient}
use anchor_rs.Resilience.Backoff.{Backoff, full, verbatim, delay, apply}
use anchor_rs.Resilience.Backoff.Laws.{delay-exact, apply-eq-none_iff}
use anchor_rs.Resilience.RateLimit
use anchor_rs.Resilience.RateLimit.{TokenBucket, taken, wait, try_take, millitokens_per_token}
use anchor_rs.Resilience.RateLimit.Laws.{IsValid, new-IsValid, try_take-IsValid, wait-exact}
use anchor_rs.Resilience.RateLimit.Throughput.{run-bounded}
use anchor_rs.Resilience.RateLimit.Throughput
use anchor_rs.Resilience.Retry
use anchor_rs.Resilience.Retry.{
  Runtime, Response, ok, err, RetryPolicy, Next, sleep, stop, next_delay, Run, returned,
  out_of_fuel,
}
use anchor_rs.Resilience.Retry.Delay.{next_delay_bounds}
use anchor_rs.Resilience.Retry.Total.{run-total_by_retries}
use anchor_rs.Resilience.Retry.Outcomes.{Ending, run-Ending}
use anchor_rs.Resilience.Transport.{acquire, unready}
use anchor_rs.Resilience.Transport.Pacing.{Granted, acquire-Granted, acquire-unready}

-- A world that is its own clock, and an operation that takes a millisecond.
abbrev clock : Runtime ℕ
clock = record { now_millis = λ w. w; sleep_ms = λ ms w. w + ms }

abbrev busy : ℕ → Response × ℕ
busy w = (ok (Response.new 503 []), w + 1)

abbrev refused : ℕ → Response × ℕ
refused w = (err (resilience (rate_limited 7)), w + 1)

abbrev doubling : Backoff
doubling = record { base_ms = 100; factor = 2; max_ms = 1_000; max_retries = some 3 }

abbrev policy : RetryPolicy
policy = record { backoff = doubling; jitter = full; max_total_ms = 5_000 }

delay-exact_example : delay doubling 2 ≡ some (min (100 * 2 ^ 2) 1_000)
delay-exact_example = delay-exact doubling 2 (omega arith) (omega arith)

apply-eq-none_iff_example : (apply full u64_max 3 ≡ none) ↔ ((full ≡ full) × (u64_max ≡ u64_max))
apply-eq-none_iff_example = apply-eq-none_iff full u64_max 3 (omega arith)

next_delay_bounds_example : (100 ≤ 500) × ((h : ℕ) → some 7 ≡ some h → min h 500 ≤ 100)
unfolding next_delay apply delay
next_delay_bounds_example =
    next_delay_bounds (record policy { jitter = verbatim }) 0 (some 7) 500 9 {ms = 100} refl

run-total_by_retries_example : Retry.run clock busy policy 4 0 ≢ out_of_fuel
run-total_by_retries_example = run-total_by_retries clock busy policy 3 0 refl (omega arith)

run-Ending_example : Ending clock refused policy 0 0 0 (err (resilience (rate_limited 7))) 1
unfolding Retry.run Retry.round transient
run-Ending_example = run-Ending clock refused policy 4 0 1 (err (resilience (rate_limited 7))) refl

abbrev bucket : TokenBucket
bucket = RateLimit.new 2 5 0

try_take-IsValid_example : IsValid (try_take 10 bucket).0
try_take-IsValid_example = try_take-IsValid 10 bucket (new-IsValid 2 5 0 (omega arith))

-- One token, spent.
abbrev spent : TokenBucket
spent = record {
  capacity_millitokens = 1_000;
  refill_per_sec = 5;
  tokens_millitokens = 0;
  last_ms = 0;
}

wait-exact_example : ((try_take (10 + 190) (try_take 10 spent).0).1 ≡ taken) ↔ (190 ≤ 190)
unfolding try_take
wait-exact_example = wait-exact 10 190 190 spent (omega arith) (omega arith) refl (omega arith)

run-bounded_example :
    (Throughput.run (RateLimit.new 2 5 0) (0 ∷ 0 ∷ 0 ∷ [])).1 * millitokens_per_token
    ≤ 2 * millitokens_per_token + (1_000 - 0) * 5
run-bounded_example =
    run-bounded 2 5 0 1_000 (0 ∷ 0 ∷ 0 ∷ []) (omega arith)
      (omega arith, (omega arith, (omega arith, tt)))

acquire-Granted_example : Granted clock (acquire clock 2 spent 0)
acquire-Granted_example =
    acquire-Granted clock spent 0 (λ ms v. omega arith) (omega arith) (omega arith) (omega arith)

acquire-unready_example : acquire clock 9 (RateLimit.new 0 5 0) 0 ≡ unready
unfolding RateLimit.new
acquire-unready_example =
    acquire-unready clock 9 (RateLimit.new 0 5 0) 0 (new-IsValid 0 5 0 (omega arith)) (omega arith)
      (omega arith)
