-- ===== src/Resilience/Retry/Total.antt =====
-- Rounds of the retry loop: keetanetwork-anchor-client/src/resilience/retry.rs.
use anchor_rs.Prelude.{
  ℕ, zero, suc, ◌+◌, ◌≤◌, ◌<◌, ◌≡◌, ◌≢◌, ◌⊎◌, refl, Bool-cases, Option, none, some, arith, inl, inr,
  u32_max,
}
use anchor_rs.Http.Errors.{transient, retryable_status}
use anchor_rs.Resilience.Backoff.{Backoff, delay}
use anchor_rs.Resilience.Retry.{
  Runtime, Response, ok, err, RetryPolicy, Next, sleep, stop, next_delay, remaining_budget, Round,
  done, again, out_of_fuel, round, loop, run, seed_of, proceed, answered, next_attempt,
}
use anchor_rs.Resilience.Retry.Delay.{next_delay_bounds, sleep_needs}

delay_below :
    (b : Backoff) (attempt most : ℕ)
    → b.max_retries ≡ some most
    → delay b attempt ≢ none
    → attempt < most
unfolding delay
delay_below b attempt most m h = ground arith

-- A round goes on, returns or panics.
pub Round-cases :
    {W : Type 0} (r : Round W)
    → ((seed : ℕ) × (w : W) × (r ≡ again seed w))
      ⊎ ((response : Response) × (w : W) × (r ≡ done response w))
      ⊎ (r ≡ Round.panic)
Round-cases (done response w) = inr (inl (response, w, refl))
Round-cases (again seed w) = inl (seed, w, refl)
Round-cases Round.panic = inr (inr refl)

module _ {W : Type 0} (rt : Runtime W) (operation : W → Response × W) (p : RetryPolicy) where
  -- A round that goes on has slept for what `next_delay` asked, with a budget left.
  pub record GoesOn (start attempt seed : ℕ) (w : W) (w' : W) : Type 0 where
    pub slept : ℕ
    pub world : w' ≡ rt.sleep_ms slept (operation w).1
    pub budget : 0 < remaining_budget p start (rt.now_millis (operation w).1)
    pub within : slept ≤ remaining_budget p start (rt.now_millis (operation w).1)
    pub scheduled : delay p.backoff attempt ≢ none

  proceed-again :
      (last : Response) (w w' : W) (next : Next × ℕ) (seed' : ℕ)
      → proceed rt operation p last w next ≡ again seed' w'
      → (ms : ℕ) × (next.0 ≡ sleep ms) × (w' ≡ rt.sleep_ms ms w)
  unfolding proceed
  proceed-again last w w' (sleep ms, seed) seed' h = (ms, refl, cc)
  proceed-again last w w' (stop, seed) seed' h = cc
  proceed-again last w w' (Next.panic, seed) seed' h = cc

  GoesOn-proceed :
      (start attempt seed seed' : ℕ) (hint : Option ℕ) (last : Response) (w w' : W)
      → proceed rt operation p last (operation w).1 (
          next_delay p attempt hint (remaining_budget p start (rt.now_millis (operation w).1)) seed)
        ≡ again seed' w'
      → GoesOn start attempt seed w w'
  GoesOn-proceed start attempt seed seed' hint last w w' h =
      let (ms, slept, world) = proceed-again last (operation w).1 w' _ seed' h in
      let remaining = remaining_budget p start (rt.now_millis (operation w).1) in
      let (budget, scheduled) = sleep_needs p attempt hint remaining seed slept in
      record {
        slept = ms;
        world = world;
        budget = budget;
        within = (next_delay_bounds p attempt hint remaining seed slept).0;
        scheduled = scheduled;
      }

  answered-GoesOn :
      (start attempt seed seed' : ℕ) (response : Response) (w w' : W)
      → answered rt operation p start attempt seed response (operation w).1 ≡ again seed' w'
      → GoesOn start attempt seed w w'
  unfolding answered
  answered-GoesOn start attempt seed seed' (ok response) w w' h =
      elim (Bool-cases (retryable_status response.status)) [
        | inl retry ↦ GoesOn-proceed start attempt seed seed' _ _ w w' (rw retry at h)
        | inr final ↦ ground arith
      ]
  answered-GoesOn start attempt seed seed' (err error) w w' h =
      elim (Bool-cases (transient error)) [
        | inl retry ↦ GoesOn-proceed start attempt seed seed' none _ w w' (rw retry at h)
        | inr final ↦ ground arith
      ]

  pub round-GoesOn :
      (start attempt seed seed' : ℕ) (w w' : W)
      → round rt operation p start attempt seed w ≡ again seed' w'
      → GoesOn start attempt seed w w'
  unfolding round
  round-GoesOn start attempt seed seed' w w' h =
      answered-GoesOn start attempt seed seed' (operation w).0 w w' h

  loop-total_by_retries :
      (most fuel start attempt seed : ℕ) (w : W)
      → p.backoff.max_retries ≡ some most
      → most ≤ u32_max
      → attempt ≤ most
      → most < attempt + fuel
      → loop rt operation p fuel start attempt seed w ≢ out_of_fuel
  unfolding loop
  loop-total_by_retries most zero start attempt seed w m u a f = absurd (omega arith)
  loop-total_by_retries most (suc fuel) start attempt seed w m u a f =
      elim (Round-cases (round rt operation p start attempt seed w)) [
        | inl (seed', w', e) ↦
            let on = round-GoesOn start attempt seed seed' w w' e in
            let below : attempt < most = delay_below p.backoff attempt most m on.scheduled in
            rw (e, loop)
              (loop-total_by_retries most fuel start (next_attempt attempt) seed' w' m u
                (omega arith) (omega arith))
        | inr (inl (response, w', e)) ↦ rw (e, loop) (λ x. cc)
        | inr (inr e) ↦ rw (e, loop) (λ x. cc)
      ]

  -- With a retry ceiling `n` the loop makes at most `n + 1` rounds: that much fuel is enough.
  pub run-total_by_retries :
      (most : ℕ) (w : W)
      → p.backoff.max_retries ≡ some most
      → most ≤ u32_max
      → run rt operation p (most + 1) w ≢ out_of_fuel
  unfolding run
  run-total_by_retries most w m u =
      loop-total_by_retries most (most + 1) (rt.now_millis w) 0 (seed_of (rt.now_millis w)) w m u
        (omega arith) (omega arith)
