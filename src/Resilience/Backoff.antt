-- ===== src/Resilience/Backoff.antt =====
-- keetanetwork-anchor-client/src/resilience/backoff.rs and lease.rs. The builder methods that
-- override a single field are record updates.
pub mod Laws
use anchor_rs.Prelude.{
  ℕ, ◌+◌, ◌-◌, ◌/◌, ◌%◌, min, Bool, Option, none, some, leb, ◌==◌, if◌then◌else◌, is_some_and,
  unwrap_or, u64_max, saturating_mul, saturating_sub, checked_pow,
}

pub record Backoff : Type 0 where
  pub base_ms : ℕ
  pub factor : ℕ
  pub max_ms : ℕ
  pub max_retries : Option ℕ

-- `Backoff::default`, with `DEFAULT_BASE_MS`, `DEFAULT_FACTOR` and `DEFAULT_MAX_MS`.
abbrev pub default : Backoff
default = record { base_ms = 500; factor = 2; max_ms = 30_000; max_retries = none }

-- `Backoff::with_base_ms`, `with_factor`, `with_max_ms` and `with_max_retries`.
abbrev pub with_base_ms : Backoff → ℕ → Backoff
with_base_ms b base_ms = record b { base_ms = base_ms }

abbrev pub with_factor : Backoff → ℕ → Backoff
with_factor b factor = record b { factor = factor }

abbrev pub with_max_ms : Backoff → ℕ → Backoff
with_max_ms b max_ms = record b { max_ms = max_ms }

abbrev pub with_max_retries : Backoff → ℕ → Backoff
with_max_retries b max_retries = record b { max_retries = some max_retries }

-- `Backoff::delay`
unfoldable pub delay : Backoff → ℕ → Option ℕ
delay b attempt =
    if is_some_and b.max_retries (λ most. leb most attempt)
    then none
    else let growth = unwrap_or (checked_pow b.factor attempt) u64_max in
      some (min (saturating_mul b.base_ms growth) b.max_ms)

pub data Jitter : Type 0 where
  verbatim full equal : Jitter

-- `bounded`: `rand % (max + 1)`. At `max` = `u64::MAX` the sum overflows, and the call panics: on
-- the overflow check, or on the remainder by 0. `none` is the panic.
unfoldable pub bounded : ℕ → ℕ → Option ℕ
bounded rand max =
    if max == 0 then some 0 else if max == u64_max then none else some (rand % (max + 1))

-- `Jitter::apply`, whose variant `None` is `verbatim`.
unfoldable pub apply : Jitter → ℕ → ℕ → Option ℕ
unfolding bounded
apply verbatim delay_ms rand = some delay_ms
apply full delay_ms rand = bounded rand delay_ms
apply equal delay_ms rand =
    let floor = delay_ms / 2 in
    elim (bounded rand (delay_ms - floor)) [ none ↦ none | some extra ↦ some (floor + extra) ]

-- `lease_work_budget_ms`, with `MAX_ABORT_MARGIN_MS`.
unfoldable pub lease_work_budget_ms : ℕ → ℕ
lease_work_budget_ms lease_ms = saturating_sub lease_ms (min 5_000 (lease_ms / 10))
