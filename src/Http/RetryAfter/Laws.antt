-- ===== src/Http/RetryAfter/Laws.antt =====
-- Parsing and printing of `Retry-After`: keetanetwork-anchor-client/src/transport/retry_after.rs.
use mathlib.Core.List.{reverse, reverse-cons, reverse-reverse}
use anchor_rs.Prelude.{
  ℕ, ◌≤◌, ◌≡◌, refl, sym, ◌∙◌, ◌↔◌, ap, true, false, none, some, Text, [], ◌∷◌, ◌++◌, All, all,
  arith, inl, inr, Bool-cases, ◌&&◌, u64_max, parse_u64, to_decimal, to_decimal-digits,
  parse_u64-to_decimal,
}
use anchor_rs.Http.RetryAfter.{
  seconds, is_whitespace, trim_start, trim, non_empty, from_str, to_text,
}

abbrev Digits : Text → Type 0
Digits = All (λ c. (48 ≤ c) × (c ≤ 57))

trim_start-Digits : (s : Text) → Digits s → trim_start s ≡ s
unfolding trim_start
trim_start-Digits [] h = refl
trim_start-Digits (c ∷ s) h = ground arith

Digits-snoc : (s : Text) {d : ℕ} → Digits s → (48 ≤ d) × (d ≤ 57) → Digits (s ++ d ∷ [])
Digits-snoc [] h k = (k, tt)
Digits-snoc (c ∷ s) (p, h) k = (p, Digits-snoc s h k)

Digits-reverse : (s : Text) → Digits s → Digits (reverse s)
Digits-reverse [] h = tt
Digits-reverse (c ∷ s) (p, h) = rw reverse-cons (Digits-snoc (reverse s) (Digits-reverse s h) p)

trim-Digits : (s : Text) → Digits s → trim s ≡ s
unfolding trim
trim-Digits s h =
    rw (trim_start-Digits s h, trim_start-Digits (reverse s) (Digits-reverse s h))
      (reverse-reverse s)

non_empty-number : (s : Text) {n : ℕ} → parse_u64 s ≡ some n → non_empty s ≡ some (seconds n)
unfolding parse_u64
non_empty-number [] h = cc
non_empty-number (c ∷ s) h = rw h

-- A delay in seconds, printed as a header value, parses back to the same delay.
pub from_str-to_text_seconds :
    (n : ℕ) → n ≤ u64_max → from_str (to_text (seconds n)) ≡ some (seconds n)
unfolding from_str to_text
from_str-to_text_seconds n h =
    rw (trim-Digits (to_decimal n) (to_decimal-digits n))
      (non_empty-number (to_decimal n) (parse_u64-to_decimal n h))

trim_start-blank : (s : Text) → (trim_start s ≡ []) ↔ (all is_whitespace s ≡ true)
unfolding trim_start
trim_start-blank [] = ground arith
trim_start-blank (c ∷ s) = ground (arith, trim_start-blank s)

-- What `trim_start` leaves starts with a code point that is no white space.
abbrev Starts : Text → Type 0
Starts [] = Unit
Starts (c ∷ s) = is_whitespace c ≡ false

trim_start-Starts : (s : Text) → Starts (trim_start s)
unfolding trim_start
trim_start-Starts [] = tt
trim_start-Starts (c ∷ s) = elim (Bool-cases (is_whitespace c)) [
  | inl blank ↦ rw blank (trim_start-Starts s)
  | inr other ↦ rw other other
]

all-snoc :
    (s : Text) (c : ℕ) → all is_whitespace (s ++ c ∷ []) ≡ (all is_whitespace s && is_whitespace c)
all-snoc [] c = ground arith
all-snoc (d ∷ s) c = ground (arith, all-snoc s c)

trim_start-reverse : (s : Text) → Starts s → trim_start (reverse s) ≡ [] → s ≡ []
trim_start-reverse [] h e = refl
trim_start-reverse (c ∷ s) h e =
    let blank : all is_whitespace (reverse s ++ c ∷ []) ≡ true =
      rw reverse-cons at ((trim_start-blank (reverse (c ∷ s))).0 e) in
    ground (arith, all-snoc (reverse s) c)

reverse-nil : (s : Text) → reverse s ≡ [] → s ≡ []
reverse-nil s e = sym (reverse-reverse s) ∙ ap reverse e

trim-blank : (v : Text) → trim v ≡ [] → trim_start v ≡ []
unfolding trim
trim-blank v e =
    trim_start-reverse (trim_start v) (trim_start-Starts v)
      (reverse-nil (trim_start (reverse (trim_start v))) e)

non_empty-none : (s : Text) → non_empty s ≡ none → s ≡ []
non_empty-none [] h = refl
non_empty-none (c ∷ s) h = cc

-- A header value is refused exactly when it is blank: empty, or white space alone.
pub from_str-eq-none_iff : (v : Text) → (from_str v ≡ none) ↔ (all is_whitespace v ≡ true)
unfolding from_str trim
from_str-eq-none_iff v = (
  λ e. (trim_start-blank v).0 (trim-blank v (non_empty-none (trim v) e)),
  λ h. rw ((trim_start-blank v).1 h),
)
