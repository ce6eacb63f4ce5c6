-- ===== src/Prelude/Decimal.antt =====
-- Decimal text of a number (`u64::to_string`) and its parser (`str::parse::<u64>`).
use Prim.Native.Nat.{ℕ, zero, suc, ◌+◌, ◌-◌, ◌*◌, ◌/◌, ◌%◌, ◌≤◌, ◌<◌}
use mathlib.Core.Path.{◌≡◌, refl, ◌∙◌}
use mathlib.Core.Logic.{inl, inr, ◌≢◌}
use mathlib.Core.Bool.{Bool, ◌&&◌}
use mathlib.Core.Option.{Option, none, some}
use mathlib.Core.List.{[], ◌∷◌, ◌++◌}
use native.Mathlib.Omega.{arith}
use native.Mathlib.Numerals.{add-one}
use anchor_rs.Prelude.Tests.{ltb, leb, ◌==◌, if◌then◌else◌, and_then, Bool-cases}
use anchor_rs.Prelude.Lists.{All, length, length-append}
use anchor_rs.Prelude.Chars.{Text, codes}
use anchor_rs.Prelude.Words.{u64_max}

decimal_fuel : ℕ → ℕ → Text
decimal_fuel zero n = []
decimal_fuel (suc f) n =
    let more = decimal_fuel f (n / 10) ++ (48 + n % 10) ∷ [] in
    if ltb n 10 then (48 + n) ∷ [] else more

unfoldable pub to_decimal : ℕ → Text
unfolding decimal_fuel
to_decimal n = decimal_fuel (n + 1) n

-- `u8::is_ascii_digit`.
abbrev pub is_ascii_digit : ℕ → Bool
is_ascii_digit c = leb b'0' c && leb c b'9'

-- The digit loop, with the overflow check of each step.
parse_digits : ℕ → Text → Option ℕ
parse_digits acc [] = some acc
parse_digits acc (c ∷ s) =
    let next = parse_digits (acc * 10 + (c - 48)) s in
    if is_ascii_digit c && leb (acc * 10 + (c - 48)) u64_max then next else none

-- A leading `+` is accepted before at least one digit.
unfoldable pub parse_u64 : Text → Option ℕ
unfolding parse_digits
parse_u64 [] = none
parse_u64 (c ∷ []) = parse_digits 0 (c ∷ [])
parse_u64 (c ∷ d ∷ s) = if c == b'+' then parse_digits 0 (d ∷ s) else parse_digits 0 (c ∷ d ∷ s)

parse_digits-append :
    (acc : ℕ) (s t : Text)
    → parse_digits acc (s ++ t) ≡ and_then (parse_digits acc s) (λ a. parse_digits a t)
unfolding parse_digits
parse_digits-append acc [] t = refl
parse_digits-append acc (c ∷ s) t = ground (arith, parse_digits-append (acc * 10 + (c - 48)) s t)

parse_digits-snoc :
    (s : Text) (a d : ℕ)
    → parse_digits 0 s ≡ some a
    → d < 10
    → a * 10 + d ≤ u64_max
    → parse_digits 0 (s ++ (48 + d) ∷ []) ≡ some (a * 10 + d)
parse_digits-snoc s a d h p q =
    rw (parse_digits-append 0 s ((48 + d) ∷ []), h) (unfold parse_digits in ground arith)

parse_digits-decimal_fuel :
    (f n : ℕ) → n < f → n ≤ u64_max → parse_digits 0 (decimal_fuel f n) ≡ some n
unfolding decimal_fuel
parse_digits-decimal_fuel zero n h p = absurd (omega arith)
parse_digits-decimal_fuel (suc f) n h p = elim (Bool-cases (ltb n 10)) [
  | inl small ↦ rw small (unfold parse_digits in ground arith)
  | inr large ↦
      let ih = parse_digits-decimal_fuel f (n / 10) (ground arith) (omega arith) in
      let whole : n / 10 * 10 + n % 10 ≡ n = omega arith in
      rw large (
        parse_digits-snoc (decimal_fuel f (n / 10)) (n / 10) (n % 10) ih (omega arith) (omega arith)
        ∙ rw whole)
]

All-snoc :
    (s : Text) {d : ℕ}
    → All (λ c. (48 ≤ c) × (c ≤ 57)) s
    → (48 ≤ d) × (d ≤ 57)
    → All (λ c. (48 ≤ c) × (c ≤ 57)) (s ++ d ∷ [])
All-snoc [] h k = (k, tt)
All-snoc (c ∷ s) (p, h) k = (p, All-snoc s h k)

-- The text holds digits alone.
decimal_fuel-digits : (f n : ℕ) → All (λ c. (48 ≤ c) × (c ≤ 57)) (decimal_fuel f n)
unfolding decimal_fuel
decimal_fuel-digits zero n = tt
decimal_fuel-digits (suc f) n = elim (Bool-cases (ltb n 10)) [
  | inl small ↦ rw small (ground arith)
  | inr large ↦
      rw large (All-snoc (decimal_fuel f (n / 10)) (decimal_fuel-digits f (n / 10)) (omega arith))
]

-- A parser that is given the text of digits does not look for a sign.
parse_u64_of_digits :
    (s : Text)
    → All (λ c. (48 ≤ c) × (c ≤ 57)) s
    → {n : ℕ} → parse_digits 0 s ≡ some n
    → length s ≢ 0
    → parse_u64 s ≡ some n
unfolding parse_u64
parse_u64_of_digits [] d h k = absurd (k refl)
parse_u64_of_digits (c ∷ []) d h k = h
parse_u64_of_digits (c ∷ e ∷ s) d {n} h k = ground arith

length-decimal_fuel : (f n : ℕ) → length (decimal_fuel (suc f) n) ≢ 0
unfolding decimal_fuel
length-decimal_fuel f n =
    ground (arith, length-append {0} (decimal_fuel f (n / 10)) ((48 + n % 10) ∷ []))

-- Parsing the decimal text of a `u64` gives the number back.
pub parse_u64-to_decimal : (n : ℕ) → n ≤ u64_max → parse_u64 (to_decimal n) ≡ some n
unfolding to_decimal
parse_u64-to_decimal n h =
    parse_u64_of_digits (decimal_fuel (n + 1) n) (decimal_fuel-digits (n + 1) n)
      (parse_digits-decimal_fuel (n + 1) n (omega arith) h)
      (rw (add-one n) (length-decimal_fuel n n))

pub to_decimal-digits : (n : ℕ) → All (λ c. (48 ≤ c) × (c ≤ 57)) (to_decimal n)
unfolding to_decimal
to_decimal-digits n = decimal_fuel-digits (n + 1) n

decimal_tests :
    (to_decimal 9007199254740991 ≡ codes "9007199254740991")
    × (parse_u64 (codes "18446744073709551615") ≡ some u64_max)
    × (parse_u64 (codes "18446744073709551616") ≡ none)
    × (parse_u64 (codes "+7") ≡ some 7)
    × (parse_u64 (codes "+") ≡ none)
unfolding to_decimal parse_u64
decimal_tests = (refl, refl, refl, refl, refl)
