-- ===== src/Signing/Payload/Laws.antt =====
-- Signable values: `object_to_signable` of keetanetwork-anchor/src/signing/canonical.rs.
use mathlib.Core.Option
use anchor_rs.Prelude.{
  ℕ, ◌≤◌, ◌<◌, ◌≡◌, ◌≢◌, ◌↔◌, refl, sym, ap, ◌∙◌, Bool, Bool-cases, inl, inr, true, false, Option,
  some, Text, List, [], ◌∷◌, ltb, ltb→lt, utf8_len, if◌then◌else◌, arith,
}
use anchor_rs.Json.{Value}
use anchor_rs.Signing.Canonical.{
  Result, ok, err, SigningError, output_too_large, ◌>>=◌, max_nodes, max_output_bytes, count_nodes,
  limit_output,
}
use anchor_rs.Signing.Canonical.Reference.{normalize, print}
use anchor_rs.Signing.Canonical.Machine.{canonicalize_into-print, canonicalize_into-over}
use anchor_rs.Signing.Payload.{Signable, text, one_text, object_to_signable}

-- What makes a value signable as one text.
pub record Printed (value : Value) (parts : List Signable) : Type 0 where
  pub canonical : Text
  pub few_nodes : count_nodes value ≤ max_nodes
  pub prints : print (normalize value) ≡ ok canonical
  pub short : utf8_len canonical ≤ max_output_bytes
  pub one_part : parts ≡ text canonical ∷ []

limit-short : (t : Text) → utf8_len t ≤ max_output_bytes → limit_output t ≡ ok t
unfolding limit_output
limit-short t l = ground (arith, l)

limited :
    (b : Bool) (t : Text) (parts : List Signable)
    → (do canonical ← (if b then err output_too_large else ok t); ok (text canonical ∷ []))
      ≡ ok parts
    → (b ≡ false) × (parts ≡ text t ∷ [])
limited true t parts h = cc
limited false t parts h = (refl, cc)

not_over : (a b : ℕ) → ltb a b ≡ false → b ≤ a
not_over a b h = ground arith

one_text-cases :
    (r : Result Text) (parts : List Signable)
    → one_text r ≡ ok parts
    → (t : Text) × (r ≡ ok t) × (utf8_len t ≤ max_output_bytes) × (parts ≡ text t ∷ [])
unfolding limit_output
one_text-cases (ok t) parts h =
    let (e, one) = limited (ltb max_output_bytes (utf8_len t)) t parts h in
    (t, refl, not_over max_output_bytes (utf8_len t) e, one)
one_text-cases (err e) parts h = cc

some_injective : {A : Type 0} {a b : A} → some a ≡ some b → a ≡ b
some_injective h = cc

err-ok :
    {A : Type 0} {e : SigningError} {a : A}
    → ◌≢◌ {A = Option (Result A)} (some (err e)) (some (ok a))
err-ok h = cc

within :
    (value : Value)
    → count_nodes value ≤ max_nodes
    → object_to_signable value ≡ some (one_text (print (normalize value)))
unfolding object_to_signable
within value n = ap (Option.map one_text) (canonicalize_into-print value (some max_nodes) n)

beyond :
    (value : Value) (parts : List Signable)
    → max_nodes < count_nodes value
    → object_to_signable value ≢ some (ok parts)
unfolding object_to_signable
beyond value parts n h =
    let (e, over) = canonicalize_into-over value max_nodes n in
    err-ok (sym (ap (Option.map one_text) over) ∙ h)

signable :
    (value : Value) (parts : List Signable)
    → Printed value parts
    → object_to_signable value ≡ some (ok parts)
signable value parts p =
    within value p.few_nodes
    ∙ ap (λ r. some (one_text r)) p.prints
    ∙ rw (limit-short p.canonical p.short, p.one_part) refl

signed :
    (value : Value) (parts : List Signable)
    → object_to_signable value ≡ some (ok parts)
    → Printed value parts
signed value parts h = elim (Bool-cases (ltb max_nodes (count_nodes value))) [
  | inl over ↦ absurd (beyond value parts (ltb→lt max_nodes (count_nodes value) over) h)
  | inr fits ↦
      let few = not_over max_nodes (count_nodes value) fits in
      let (t, p, l, one) =
        one_text-cases (print (normalize value)) parts
          (some_injective (sym (within value few) ∙ h)) in
      record { canonical = t; few_nodes = few; prints = p; short = l; one_part = one }
]

-- A value is signable exactly when it has at most a thousand nodes and its normalized form prints to at
-- most 64 KiB of UTF-8, and it is then signed as one part, that text.
pub object_to_signable-ok_iff :
    (value : Value) (parts : List Signable)
    → (object_to_signable value ≡ some (ok parts)) ↔ Printed value parts
object_to_signable-ok_iff value parts = (signed value parts, signable value parts)
