-- ===== src/Resilience/Retry/Outcomes.antt =====
-- What the retry loop returns, against a relational description of its tries:
-- keetanetwork-anchor-client/src/resilience/retry.rs.
use anchor_rs.Prelude.{
  ℕ, zero, suc, ◌+◌, ◌-◌, ◌%◌, ◌^◌, ◌<◌, ◌≡◌, ◌⊎◌, refl, sym, ◌∙◌, subst, Bool, true, false,
  Bool-cases, none, arith, inl, inr,
}
use anchor_rs.Http.Response.{HttpResponse}
use anchor_rs.Http.Errors.{TransportError, resilience, retry_exhausted, transient, retryable_status}
use anchor_rs.Resilience.Backoff.{delay}
use anchor_rs.Resilience.Retry.{
  Runtime, Response, ok, err, RetryPolicy, Next, sleep, stop, remaining_budget, done, again,
  returned, panicked, round, loop, run, seed_of, proceed, answered, exhausted, next_attempt,
}
use anchor_rs.Resilience.Retry.Delay.{next_delay-eq-stop_iff}
use anchor_rs.Resilience.Retry.Total.{round-GoesOn, Round-cases}

-- A result that invites a retry: a retryable status, or a transient error.
abbrev pub invites_retry : Response → Bool
invites_retry (ok response) = retryable_status response.status
invites_retry (err error) = transient error

attempt_shift : (attempt n : ℕ) → (next_attempt attempt + n) % 2 ^ 32 ≡ (attempt + suc n) % 2 ^ 32
attempt_shift attempt n = omega arith

attempt_itself : (attempt : ℕ) → attempt < 2 ^ 32 → attempt ≡ (attempt + 0) % 2 ^ 32
attempt_itself attempt h = omega arith

err-injective : (e e' : TransportError) → err e ≡ err e' → e ≡ e'
err-injective e e' h = cc

done-injective :
    {W : Type 0} (r r' : Response) (w w' : W) → done r w ≡ done r' w' → (r ≡ r') × (w ≡ w')
done-injective r r' w w' h = (cc, cc)

returned-injective :
    {W : Type 0} (r r' : Response) (w w' : W) → returned r w ≡ returned r' w' → (r ≡ r') × (w ≡ w')
returned-injective r r' w w' h = (cc, cc)

module _ {W : Type 0} (rt : Runtime W) (operation : W → Response × W) (p : RetryPolicy) where
  -- `n` tries, each with a result that invites a retry, and a sleep after each.
  pub data Tries : ℕ → W → W → Type 0 where
    here : {w : W} → Tries 0 w w
    next :
        {n : ℕ} {w v : W}
        → invites_retry (operation w).0 ≡ true
        → (ms : ℕ) → Tries n (rt.sleep_ms ms (operation w).1) v
        → Tries (suc n) w v

  -- The time budget is spent after this try, or the schedule allows no further one.
  abbrev pub IsSpent : ℕ → ℕ → W → Type 0
  IsSpent start attempt w =
      (remaining_budget p start (rt.now_millis (operation w).1) ≡ 0)
      ⊎ (delay p.backoff attempt ≡ none)

  -- What the last try, at `w` and with number `attempt`, makes of its result: a result that
  -- invites no retry is returned as it is; with the budget spent, a retryable response is
  -- handed back and a transient error is wrapped.
  pub data Settles (start attempt : ℕ) (w : W) : Response → Type 0 where
    final :
        {r : Response} → (operation w).0 ≡ r → invites_retry r ≡ false → Settles start attempt w r
    handed_back :
        {response : HttpResponse}
        → (operation w).0 ≡ ok response
        → retryable_status response.status ≡ true
        → IsSpent start attempt w
        → Settles start attempt w (ok response)
    gave_up :
        {error : TransportError}
        → (operation w).0 ≡ err error
        → transient error ≡ true
        → IsSpent start attempt w
        → Settles start attempt w (
            err (
              resilience (
                retry_exhausted
                  (next_attempt attempt)
                  (rt.now_millis (operation w).1 - start)
                  error)))

  proceed-done :
      (last r : Response) (w w' : W) (next : Next × ℕ)
      → proceed rt operation p last w next ≡ done r w'
      → (next.0 ≡ stop) × (last ≡ r) × (w ≡ w')
  unfolding proceed
  proceed-done last r w w' (sleep ms, seed) h = cc
  proceed-done last r w w' (stop, seed) h = (refl, cc, cc)
  proceed-done last r w w' (Next.panic, seed) h = cc

  answered-Settles :
      (start attempt seed : ℕ) (response r : Response) (w w' : W)
      → (operation w).0 ≡ response
      → answered rt operation p start attempt seed response (operation w).1 ≡ done r w'
      → Settles start attempt w r × (w' ≡ (operation w).1)
  unfolding answered exhausted
  answered-Settles start attempt seed (ok response) r w w' o h =
      elim (Bool-cases (retryable_status response.status)) [
        | inl retry ↦
            let (stopped, same, world) =
              proceed-done (ok response) r (operation w).1 w' _ (rw retry at h) in
            let spent = (next_delay-eq-stop_iff p attempt _ _ seed).0 stopped in
            (subst (Settles start attempt w) same (handed_back o retry spent), sym world)
        | inr last ↦
            let (same, world) = done-injective (ok response) r (operation w).1 w' (rw last at h) in
            (subst (Settles start attempt w) same (final o last), sym world)
      ]
  answered-Settles start attempt seed (err error) r w w' o h = elim (Bool-cases (transient error)) [
    | inl retry ↦
        let (stopped, same, world) =
          proceed-done (exhausted rt operation p start attempt error (operation w).1) r
            (operation w).1 w' _ (rw retry at h) in
        let spent = (next_delay-eq-stop_iff p attempt none _ seed).0 stopped in
        (subst (Settles start attempt w) same (gave_up o retry spent), sym world)
    | inr last ↦
        let (same, world) = done-injective (err error) r (operation w).1 w' (rw last at h) in
        (subst (Settles start attempt w) same (final o last), sym world)
  ]

  round-Settles :
      (start attempt seed : ℕ) (r : Response) (w w' : W)
      → round rt operation p start attempt seed w ≡ done r w'
      → Settles start attempt w r × (w' ≡ (operation w).1)
  unfolding round
  round-Settles start attempt seed r w w' h =
      answered-Settles start attempt seed (operation w).0 r w w' refl h

  proceed-goes_on :
      (last : Response) (w w' : W) (next : Next × ℕ) {seed : ℕ}
      → proceed rt operation p last w next ≡ again seed w'
      → (ms : ℕ) × (w' ≡ rt.sleep_ms ms w)
  unfolding proceed
  proceed-goes_on last w w' (sleep ms, seed) h = (ms, cc)
  proceed-goes_on last w w' (stop, seed) h = cc
  proceed-goes_on last w w' (Next.panic, seed) h = cc

  answered-invites :
      (start attempt seed seed' : ℕ) (response : Response) (w w' : W)
      → answered rt operation p start attempt seed response w ≡ again seed' w'
      → invites_retry response ≡ true
  unfolding answered
  answered-invites start attempt seed seed' (ok response) w w' h = ground arith
  answered-invites start attempt seed seed' (err error) w w' h = ground arith

  round-invites :
      (start attempt seed seed' : ℕ) (w w' : W)
      → round rt operation p start attempt seed w ≡ again seed' w'
      → invites_retry (operation w).0 ≡ true
  unfolding round
  round-invites start attempt seed seed' w w' h =
      answered-invites start attempt seed seed' (operation w).0 (operation w).1 w' h

  -- The last try: its number, its world, and what becomes of its result.
  pub record Ending (start attempt : ℕ) (w : W) (r : Response) (w' : W) : Type 0 where
    pub tries : ℕ
    pub last : W
    pub tried : Tries tries w last
    pub settled : Settles start ((attempt + tries) % 2 ^ 32) last r
    pub world : w' ≡ (operation last).1

  loop-Ending :
      (fuel start attempt seed : ℕ) (w : W) (r : Response) (w' : W)
      → attempt < 2 ^ 32
      → loop rt operation p fuel start attempt seed w ≡ returned r w'
      → Ending start attempt w r w'
  unfolding loop
  loop-Ending zero start attempt seed w r w' a h = cc
  loop-Ending (suc fuel) start attempt seed w r w' a h =
      elim (Round-cases (round rt operation p start attempt seed w)) [
        | inl (seed', v, e) ↦
            let on = round-GoesOn rt operation p start attempt seed seed' w v e in
            let rest =
              loop-Ending fuel start (next_attempt attempt) seed' v r w' (omega arith)
                (rw (e, loop) at h) in
            record {
              tries = suc rest.tries;
              last = rest.last;
              tried =
                  next (round-invites start attempt seed seed' w v e) on.slept
                    (subst (λ u. Tries rest.tries u rest.last) on.world rest.tried);
              settled =
                  subst (λ k. Settles start k rest.last r) (attempt_shift attempt rest.tries)
                    rest.settled;
              world = rest.world;
            }
        | inr (inl (response, v, e)) ↦
            let (settled, world) = round-Settles start attempt seed response w v e in
            let (same, end) = returned-injective response r v w' (rw (e, loop) at h) in
            record {
              tries = 0;
              last = w;
              tried = here;
              settled =
                  subst (λ k. Settles start k w r) (attempt_itself attempt a)
                    (subst (Settles start attempt w) same settled);
              world = sym end ∙ world;
            }
        | inr (inr e) ↦ let ended : panicked ≡ returned r w' = rw (e, loop) at h in cc
      ]

  -- Whatever `run` returns is the outcome of a chain of tries: each earlier one invited a retry, and the
  -- last settles it, final, handed back, or wrapped with the number of tries and the time spent.
  pub run-Ending :
      (fuel : ℕ) (w w' : W) (r : Response)
      → run rt operation p fuel w ≡ returned r w'
      → Ending (rt.now_millis w) 0 w r w'
  unfolding run
  run-Ending fuel w w' r h =
      loop-Ending fuel (rt.now_millis w) 0 (seed_of (rt.now_millis w)) w r w' (omega arith) h
