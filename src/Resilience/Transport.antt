-- ===== src/Resilience/Transport.antt =====
-- keetanetwork-anchor-client/src/resilience/transport.rs: the decorator that paces a transport by a
-- token bucket and retries it. The mutex is held for one `try_take`, and one caller runs.
pub mod Pacing
use anchor_rs.Prelude.{
  ℕ, zero, suc, Option, none, some, true, false, ◌==◌, if◌then◌else◌, u64_max, Text, List,
}
use anchor_rs.Http.Errors.{TransportError, resilience, rate_limited}
use anchor_rs.Resilience.RateLimit
use anchor_rs.Resilience.RateLimit.{TokenBucket, Take, taken, wait, try_take}
use anchor_rs.Resilience.Retry
use anchor_rs.Resilience.Retry.{Runtime, Response, err, RetryPolicy, Run, run}

-- The two methods of `AnchorHttpTransport`, acting on the world.
pub record HttpTransport (W : Type 0) : Type 0 where
  pub get : Text → W → Response × W
  pub post : Text → List ℕ → W → Response × W

-- The settings and the limiter of `ResilientTransport`; the runtime and the inner transport are
-- arguments.
pub record ResilientTransport : Type 0 where
  pub retry : RetryPolicy
  pub limiter : Option TokenBucket

-- `ResilientTransport::new`
abbrev pub new : ResilientTransport
new = record { retry = Retry.default; limiter = none }

-- `ResilientTransport::with_retry`
abbrev pub with_retry : ResilientTransport → RetryPolicy → ResilientTransport
with_retry t retry = record t { retry = retry }

-- How a wait for a token ends: with the bucket and the world that it leaves, or with an error.
pub data Acquired (W : Type 0) : Type 0 where
  granted : TokenBucket → W → Acquired W
  shed : TransportError → TokenBucket → W → Acquired W
  unready : Acquired W

-- How a request ends: with the transport's settings, and the run of its retries.
pub data Sent (W : Type 0) : Type 0 where
  sent : ResilientTransport → Run W → Sent W
  refused : TransportError → ResilientTransport → W → Sent W
  starved : Sent W

module _ {W : Type 0} (rt : Runtime W) where
  -- `ResilientTransport::with_rate_limit`
  unfoldable pub with_rate_limit : ResilientTransport → ℕ → ℕ → W → ResilientTransport
  with_rate_limit t capacity refill_per_sec w = record t {
    limiter = some (RateLimit.new capacity refill_per_sec (rt.now_millis w));
  }

  -- `ResilientTransport::acquire`, for a transport with a limiter.
  unfoldable pub acquire : ℕ → TokenBucket → W → Acquired W
  acquire zero bucket w = unready
  acquire (suc fuel) bucket w =
      let (bucket', outcome) = try_take (rt.now_millis w) bucket in
      elim outcome [
        | taken ↦ granted bucket' w
        | wait ms ↦ elim (ms == u64_max) [
          | true ↦ shed (resilience (rate_limited ms)) bucket' w
          | false ↦ acquire fuel bucket' (rt.sleep_ms ms w)
        ]
      ]

  after_acquire : ℕ → (W → Response × W) → ResilientTransport → Acquired W → Sent W
  after_acquire fuel operation t (granted bucket w) =
      sent (record t { limiter = some bucket }) (run rt operation t.retry fuel w)
  after_acquire fuel operation t (shed error bucket w) =
      refused error (record t { limiter = some bucket }) w
  after_acquire fuel operation t unready = starved

  send : ℕ → (W → Response × W) → ResilientTransport → Option TokenBucket → W → Sent W
  unfolding after_acquire
  send fuel operation t none w = sent t (run rt operation t.retry fuel w)
  send fuel operation t (some bucket) w = after_acquire fuel operation t (acquire fuel bucket w)

  module _ (inner : HttpTransport W) where
    -- `ResilientTransport::get`
    unfoldable pub get : ℕ → Text → ResilientTransport → W → Sent W
    unfolding send
    get fuel url t w = send fuel (inner.get url) t t.limiter w

    -- `ResilientTransport::post`
    unfoldable pub post : ℕ → Text → List ℕ → ResilientTransport → W → Sent W
    unfolding send
    post fuel url body t w = send fuel (inner.post url body) t t.limiter w

-- `ResilientTransportFactory`, and its `create`.
pub record ResilientTransportFactory : Type 0 where
  pub retry : RetryPolicy
  pub rate_limit : Option (ℕ × ℕ)

unfoldable pub create :
    {W : Type 0} → Runtime W → ResilientTransportFactory → W → ResilientTransport
unfolding with_rate_limit
create rt factory w = elim factory.rate_limit [
  | none ↦ with_retry new factory.retry
  | some (capacity, refill_per_sec) ↦
      with_rate_limit rt (with_retry new factory.retry) capacity refill_per_sec w
]
