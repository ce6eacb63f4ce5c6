-- ===== src/Resilience/RateLimit/Throughput.antt =====
-- Runs of a token bucket: keetanetwork-anchor-client/src/resilience/rate_limit.rs.
use native.Mathlib.Nat.{le_trans, zero-add, mul-le-mul_right}
use anchor_rs.Prelude.{ℕ, ◌+◌, ◌-◌, ◌*◌, ◌≤◌, ◌≡◌, ap, subst, ◌∙◌, arith, All, List, [], ◌∷◌, suc}
use anchor_rs.Resilience.RateLimit.{
  TokenBucket, new, refill, Take, taken, wait, take_refilled, try_take, millitokens_per_token,
}

abbrev pub count_taken : Take → ℕ → ℕ
count_taken taken n = suc n
count_taken (wait _) n = n

-- The calls of `try_take` at the given times, in order: the final bucket and the tokens granted.
pub run : TokenBucket → List ℕ → TokenBucket × ℕ
run b [] = (b, 0)
run b (now ∷ later) =
    let (b', outcome) = try_take now b in
    let (b'', granted) = run b' later in (b'', count_taken outcome granted)

-- What one step may do to a bucket: time goes on, the settings stay, and what it grants and keeps is
-- paid for by what it had and by the refill of the time that passed.
record Paid (granted : ℕ) (b b' : TokenBucket) : Type 0 where
  later : b.last_ms ≤ b'.last_ms
  rate : b'.refill_per_sec ≡ b.refill_per_sec
  covered :
      granted * millitokens_per_token + b'.tokens_millitokens
      ≤ b.tokens_millitokens + (b'.last_ms - b.last_ms) * b.refill_per_sec

refill-Paid : (now : ℕ) (b : TokenBucket) → Paid 0 b (refill now b)
unfolding refill
refill-Paid now b = ground arith

take_refilled-Paid :
    (b : TokenBucket) → Paid (count_taken (take_refilled b).1 0) b (take_refilled b).0
unfolding take_refilled
take_refilled-Paid b = ground arith

-- The time that passes in two steps is the sum of theirs.
time_splits : (a b c r : ℕ) → a ≤ b → b ≤ c → (c - a) * r ≡ (b - a) * r + (c - b) * r
time_splits a b c r h k =
    let whole : c - a ≡ (b - a) + (c - b) = omega arith in rw whole (omega arith)

Paid-trans : {b b' b'' : TokenBucket} (m n : ℕ) → Paid m b b' → Paid n b' b'' → Paid (m + n) b b''
Paid-trans {b} {b'} {b''} m n p q =
    let rate = ap (λ (k : ℕ). (b''.last_ms - b'.last_ms) * k) p.rate in
    let split = time_splits b.last_ms b'.last_ms b''.last_ms b.refill_per_sec p.later q.later in
    record {
      later = le_trans p.later q.later;
      rate = q.rate ∙ p.rate;
      covered = omega (arith, p.covered, q.covered);
    }

try_take-Paid :
    (now : ℕ) (b : TokenBucket) → Paid (count_taken (try_take now b).1 0) b (try_take now b).0
unfolding try_take
try_take-Paid now b =
    let b' = refill now b in
    let grants = count_taken (take_refilled b').1 0 in
    subst (λ n. Paid n b (take_refilled b').0) (zero-add grants)
      (Paid-trans 0 grants (refill-Paid now b) (take_refilled-Paid b'))

count_taken-add : (t : Take) (n : ℕ) → count_taken t n ≡ count_taken t 0 + n
count_taken-add taken n = omega arith
count_taken-add (wait w) n = omega arith

run-Paid : (b : TokenBucket) (times : List ℕ) → Paid (run b times).1 b (run b times).0
unfolding run
run-Paid b [] = ground arith
run-Paid b (now ∷ later) =
    let b' = (try_take now b).0 in
    rw (count_taken-add (try_take now b).1 (run b' later).1) (
      Paid-trans (count_taken (try_take now b).1 0) (run b' later).1 (try_take-Paid now b)
        (run-Paid b' later))

try_take-last_ms-le :
    (now end : ℕ) (b : TokenBucket) → b.last_ms ≤ end → now ≤ end → (try_take now b).0.last_ms ≤ end
unfolding try_take refill take_refilled
try_take-last_ms-le now end b h k = ground arith

run-last_ms-le :
    (end : ℕ) (b : TokenBucket) (times : List ℕ)
    → b.last_ms ≤ end
    → All (λ t. t ≤ end) times
    → (run b times).0.last_ms ≤ end
unfolding run
run-last_ms-le end b [] h k = h
run-last_ms-le end b (now ∷ later) h (p, k) =
    run-last_ms-le end (try_take now b).0 later (try_take-last_ms-le now end b h p) k

-- Whatever the times of the calls, in any order and none after `end`, a fresh bucket grants no more
-- than its burst and the steady rate up to `end` allow.
pub run-bounded :
    (capacity rate start end : ℕ) (times : List ℕ)
    → start ≤ end
    → All (λ t. t ≤ end) times
    → (run (new capacity rate start) times).1 * millitokens_per_token
      ≤ capacity * millitokens_per_token + (end - start) * rate
unfolding new
run-bounded capacity rate start end times h k =
    let paid = run-Paid (new capacity rate start) times in
    let last = run-last_ms-le end (new capacity rate start) times h k in
    let ended =
      mul-le-mul_right {m = (run (new capacity rate start) times).0.last_ms - start}
        {n = end - start} rate (omega arith) in
    omega (arith, paid.covered, ended)
