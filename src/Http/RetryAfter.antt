-- ===== src/Http/RetryAfter.antt =====
-- keetanetwork-anchor-client/src/transport/retry_after.rs
pub mod Laws
use mathlib.Core.List.{reverse}
use anchor_rs.Prelude.{
  ℕ, Bool, ◌&&◌, ◌||◌, Option, none, some, Text, [], ◌∷◌, ◌==◌, leb, if◌then◌else◌, saturating_mul,
  to_decimal, parse_u64,
}

pub data RetryAfter : Type 0 where
  seconds : ℕ → RetryAfter
  http_date : Text → RetryAfter

-- `char::is_whitespace`: the code points with the property White_Space.
unfoldable pub is_whitespace : ℕ → Bool
is_whitespace c =
    (leb 9 c && leb c 13)
    || c == 32
    || c == 0x85
    || c == 0xa0
    || c == 0x1680
    || (leb 0x2000 c && leb c 0x200a)
    || c == 0x2028
    || c == 0x2029
    || c == 0x202f
    || c == 0x205f
    || c == 0x3000

unfoldable pub trim_start : Text → Text
unfolding is_whitespace
trim_start [] = []
trim_start (c ∷ s) = let rest = trim_start s in if is_whitespace c then rest else c ∷ s

-- `str::trim`
unfoldable pub trim : Text → Text
unfolding trim_start
trim s = reverse (trim_start (reverse (trim_start s)))

-- `MS_PER_SECOND`
abbrev pub ms_per_second : ℕ
ms_per_second = 1_000

-- `RetryAfter::to_millis`
unfoldable pub to_millis : RetryAfter → Option ℕ
to_millis (seconds n) = some (saturating_mul n ms_per_second)
to_millis (http_date date) = none

abbrev seconds_or_date : Text → Option ℕ → RetryAfter
seconds_or_date trimmed none = http_date trimmed
seconds_or_date trimmed (some n) = seconds n

abbrev non_empty : Text → Option RetryAfter
non_empty [] = none
non_empty (c ∷ s) = some (seconds_or_date (c ∷ s) (parse_u64 (c ∷ s)))

-- `RetryAfter::from_str`; `none` is `EmptyRetryAfter`.
unfoldable pub from_str : Text → Option RetryAfter
unfolding trim parse_u64
from_str value = non_empty (trim value)

-- `RetryAfter::fmt`
unfoldable pub to_text : RetryAfter → Text
unfolding to_decimal
to_text (seconds n) = to_decimal n
to_text (http_date date) = date
