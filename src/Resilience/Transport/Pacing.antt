-- ===== src/Resilience/Transport/Pacing.antt =====
-- Waiting for a token: keetanetwork-anchor-client/src/resilience/transport.rs.
use anchor_rs.Prelude.{
  ℕ, zero, suc, ◌+◌, ◌≤◌, ◌<◌, ◌≡◌, ◌≢◌, refl, subst, ◌∙◌, ◌-◌, arith, inl, inr, u64_max,
}
use anchor_rs.Http.Errors.{resilience, rate_limited}
use anchor_rs.Resilience.RateLimit.{TokenBucket, millitokens_per_token, taken, wait, try_take}
use anchor_rs.Resilience.RateLimit.Laws.{
  IsValid, wait-exact, try_take-IsValid, Take-cases, wait-le, try_take-rate, try_take-capacity,
  no_token, no_refill-shed,
}
use anchor_rs.Resilience.Retry.{Runtime}
use anchor_rs.Resilience.Transport.{Acquired, granted, shed, unready, acquire}

module _ {W : Type 0} (rt : Runtime W) where
  abbrev pub Granted : Acquired W → Type 0
  Granted (granted b w) = Unit
  Granted (shed e b w) = ⊥
  Granted unready = ⊥

  acquire-taken :
      (fuel : ℕ) (b : TokenBucket) (w : W)
      → (try_take (rt.now_millis w) b).1 ≡ taken
      → acquire rt (suc fuel) b w ≡ granted (try_take (rt.now_millis w) b).0 w
  unfolding acquire
  acquire-taken fuel b w h = rw (h, acquire)

  acquire-wait :
      (fuel ms : ℕ) (b : TokenBucket) (w : W)
      → (try_take (rt.now_millis w) b).1 ≡ wait ms
      → ms < u64_max
      → acquire rt (suc fuel) b w
        ≡ acquire rt fuel (try_take (rt.now_millis w) b).0 (rt.sleep_ms ms w)
  unfolding acquire
  acquire-wait fuel ms b w h k = rw (h, acquire) (ground arith)

  acquire-shed :
      (fuel : ℕ) (b : TokenBucket) (w : W)
      → (try_take (rt.now_millis w) b).1 ≡ wait u64_max
      → acquire rt (suc fuel) b w
        ≡ shed (resilience (rate_limited u64_max)) (try_take (rt.now_millis w) b).0 w
  unfolding acquire
  acquire-shed fuel b w h = rw (h, acquire)

  -- A caller of a limited transport gets its token after one sleep at most: the bucket refills and can
  -- hold a token, the clock has not gone back, and a sleep lasts at least as long as was asked.
  pub acquire-Granted :
      (b : TokenBucket) (w : W)
      → ((ms : ℕ) (v : W) → rt.now_millis v + ms ≤ rt.now_millis (rt.sleep_ms ms v))
      → 0 < b.refill_per_sec
      → millitokens_per_token ≤ b.capacity_millitokens
      → b.last_ms ≤ rt.now_millis w
      → Granted (acquire rt 2 b w)
  acquire-Granted b w sleeps r c l = elim (Take-cases (try_take (rt.now_millis w) b).1) [
    | inl now ↦ rw (acquire-taken 1 b w now) tt
    | inr (ms, later) ↦
        let b' = (try_take (rt.now_millis w) b).0 in
        let w' = rt.sleep_ms ms w in
        let exact =
          wait-exact (rt.now_millis w) (rt.now_millis w' - rt.now_millis w) ms b r c later l in
        let slept : ms ≤ rt.now_millis w' - rt.now_millis w = omega (arith, sleeps ms w) in
        let on_time : rt.now_millis w + (rt.now_millis w' - rt.now_millis w) ≡ rt.now_millis w' =
          omega (arith, sleeps ms w) in
        let second : (try_take (rt.now_millis w') b').1 ≡ taken =
          subst (λ (t : ℕ). (try_take t b').1 ≡ taken) on_time (exact.1 slept) in
        rw
          (
            acquire-wait 1 ms b w later (omega (arith, wait-le (rt.now_millis w) ms b r later)),
            acquire-taken 0 b' w' second,
          )
          tt
  ]

  -- With no refill, a caller that finds no token is refused at once, with the wait `u64::MAX`.
  pub acquire-no_refill :
      (fuel : ℕ) (b : TokenBucket) (w : W)
      → b.refill_per_sec ≡ 0
      → (try_take (rt.now_millis w) b).1 ≢ taken
      → acquire rt (suc fuel) b w
        ≡ shed (resilience (rate_limited u64_max)) (try_take (rt.now_millis w) b).0 w
  acquire-no_refill fuel b w r h = elim (Take-cases (try_take (rt.now_millis w) b).1) [
    | inl now ↦ absurd (h now)
    | inr (ms, later) ↦ acquire-shed fuel b w (
        subst (λ (m : ℕ). (try_take (rt.now_millis w) b).1 ≡ wait m)
          (no_refill-shed (rt.now_millis w) ms b r later) later)
  ]

  -- A bucket that refills but cannot hold one token keeps its caller waiting for ever: no number of
  -- rounds ends the loop, with a token or with an error.
  pub acquire-unready :
      (fuel : ℕ) (b : TokenBucket) (w : W)
      → IsValid b
      → 0 < b.refill_per_sec
      → b.capacity_millitokens < millitokens_per_token
      → acquire rt fuel b w ≡ unready
  acquire-unready zero b w v r c = unfold acquire in refl
  acquire-unready (suc fuel) b w v r c = elim (Take-cases (try_take (rt.now_millis w) b).1) [
    | inl now ↦ absurd (no_token (rt.now_millis w) b v c now)
    | inr (ms, later) ↦
        let b' = (try_take (rt.now_millis w) b).0 in
        acquire-wait fuel ms b w later (omega (arith, wait-le (rt.now_millis w) ms b r later))
        ∙ acquire-unready fuel b' (rt.sleep_ms ms w) (try_take-IsValid (rt.now_millis w) b v)
            (rw (try_take-rate (rt.now_millis w) b) r)
            (rw (try_take-capacity (rt.now_millis w) b) c)
  ]
