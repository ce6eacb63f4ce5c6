-- ===== src/Resilience/Retry.antt =====
-- keetanetwork-anchor-client/src/resilience/retry.rs. The clock, the sleeps and the operation act on
-- a world `W`, and the loop takes fuel.
pub mod Delay
pub mod Total
pub mod Outcomes
use anchor_rs.Prelude.{
  ℕ, zero, suc, ◌+◌, ◌*◌, ◌/◌, ◌%◌, ◌^◌, min, max, bit_xor, bit_or, Bool, not, Option, none, some,
  ◌==◌, if◌then◌else◌, and_then, saturating_sub,
}
use anchor_rs.Http.Response.{HttpResponse}
use anchor_rs.Http.RetryAfter.{to_millis}
use anchor_rs.Http.Errors.{TransportError, resilience, retry_exhausted, transient, retryable_status}
use anchor_rs.Resilience.Backoff
use anchor_rs.Resilience.Backoff.{Backoff, Jitter, full, delay, apply}

-- `ResilienceRuntime`
pub record Runtime (W : Type 0) : Type 0 where
  pub now_millis : W → ℕ
  pub sleep_ms : ℕ → W → W

-- `Result<HttpResponse, TransportError>`
pub data Response : Type 0 where
  ok : HttpResponse → Response
  err : TransportError → Response

pub record RetryPolicy : Type 0 where
  pub backoff : Backoff
  pub jitter : Jitter
  pub max_total_ms : ℕ

-- `RetryPolicy::default`, with `DEFAULT_MAX_TOTAL_MS`.
abbrev pub default : RetryPolicy
default = record { backoff = Backoff.default; jitter = full; max_total_ms = 30_000 }

-- `next_rand`: the new state is the value.
unfoldable pub next_rand : ℕ → ℕ
next_rand state =
    let left = bit_xor state (state * 2 ^ 13 % 2 ^ 64) in
    let right = bit_xor left (left / 2 ^ 7) in bit_xor right (right * 2 ^ 17 % 2 ^ 64)

-- The seed of `run`: `(start ^ SEED_SALT) | 1`.
unfoldable pub seed_of : ℕ → ℕ
seed_of start = bit_or (bit_xor start 0x9E37_79B9_7F4A_7C15) 1

-- `RetryPolicy::remaining_budget`
unfoldable pub remaining_budget : RetryPolicy → ℕ → ℕ → ℕ
remaining_budget p start_ms now_ms = saturating_sub p.max_total_ms (saturating_sub now_ms start_ms)

-- The `Option<u64>` of `next_delay`, and a panic of the jitter.
pub data Next : Type 0 where
  sleep : ℕ → Next
  stop panic : Next

abbrev longer : Option ℕ → ℕ → ℕ
longer none jittered = jittered
longer (some hint) jittered = max hint jittered

clamped : Option ℕ → ℕ → Option ℕ → Next
clamped hint remaining_ms none = panic
clamped hint remaining_ms (some jittered) = sleep (min (longer hint jittered) remaining_ms)

scheduled_delay : RetryPolicy → Option ℕ → ℕ → ℕ → Option ℕ → Next × ℕ
unfolding clamped
scheduled_delay p hint remaining_ms seed none = (stop, seed)
scheduled_delay p hint remaining_ms seed (some scheduled) =
    (clamped hint remaining_ms (apply p.jitter scheduled (next_rand seed)), next_rand seed)

-- `RetryPolicy::next_delay`, with the seed that it leaves.
unfoldable pub next_delay : RetryPolicy → ℕ → Option ℕ → ℕ → ℕ → Next × ℕ
unfolding scheduled_delay
next_delay p attempt hint remaining_ms seed =
    if remaining_ms == 0
    then (stop, seed)
    else scheduled_delay p hint remaining_ms seed (delay p.backoff attempt)

-- `u32` increment; a release build wraps.
abbrev pub next_attempt : ℕ → ℕ
next_attempt attempt = (attempt + 1) % 2 ^ 32

-- One round of the loop: it returns, or sleeps and goes on with a seed.
pub data Round (W : Type 0) : Type 0 where
  done : Response → W → Round W
  again : ℕ → W → Round W
  panic : Round W

-- How the loop ends.
pub data Run (W : Type 0) : Type 0 where
  returned : Response → W → Run W
  panicked : Run W
  out_of_fuel : Run W

module _ {W : Type 0} (rt : Runtime W) (operation : W → Response × W) (p : RetryPolicy) where
  proceed : Response → W → Next × ℕ → Round W
  proceed last w (sleep ms, seed) = again seed (rt.sleep_ms ms w)
  proceed last w (stop, seed) = done last w
  proceed last w (Next.panic, seed) = Round.panic

  exhausted : ℕ → ℕ → TransportError → W → Response
  exhausted start attempt source w = err (
      resilience
        (retry_exhausted (next_attempt attempt) (saturating_sub (rt.now_millis w) start) source))

  answered : ℕ → ℕ → ℕ → Response → W → Round W
  unfolding proceed exhausted
  answered start attempt seed (ok response) w =
      if not (retryable_status response.status)
      then done (ok response) w
      else proceed (ok response) w (
          next_delay p attempt (and_then response.retry_after to_millis)
            (remaining_budget p start (rt.now_millis w)) seed)
  answered start attempt seed (err error) w =
      if not (transient error)
      then done (err error) w
      else proceed (exhausted start attempt error w) w
          (next_delay p attempt none (remaining_budget p start (rt.now_millis w)) seed)

  unfoldable pub round : ℕ → ℕ → ℕ → W → Round W
  unfolding answered
  round start attempt seed w =
      let (response, w') = operation w in answered start attempt seed response w'

  unfoldable pub loop : ℕ → ℕ → ℕ → ℕ → W → Run W
  loop zero start attempt seed w = out_of_fuel
  loop (suc fuel) start attempt seed w = elim (round start attempt seed w) [
    | done response w' ↦ returned response w'
    | again seed' w' ↦ loop fuel start (next_attempt attempt) seed' w'
    | panic ↦ panicked
  ]

  -- `RetryPolicy::run`
  unfoldable pub run : ℕ → W → Run W
  unfolding loop
  run fuel w = loop fuel (rt.now_millis w) 0 (seed_of (rt.now_millis w)) w
