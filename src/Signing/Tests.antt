-- ===== src/Signing/Tests.antt =====
-- The signing theorems at concrete inputs.
use anchor_rs.Signing.Toy.{
  noon, plain, bare, copier, params, parts, envelope, options, verifies, queries, base, signed_url,
}
use anchor_rs.Prelude.{ℕ, ◌≡◌, ◌↔◌, refl, pos, some, true, codes, [], ◌∷◌, ◌++◌, text_eq, arith}
use anchor_rs.Prelude.Outcomes.{success, failure}
use anchor_rs.Json.{Value, null, bool, number, array, object, nil, cons, end, field}
use anchor_rs.Signing.Canonical.{
  ok, err, SigningError, count_nodes, canonicalize_into, escape_string, sort_entries, cmp_utf16,
}
use anchor_rs.Signing.Canonical.Reference.{normalize, print}
use anchor_rs.Signing.Canonical.Machine.{canonicalize_into-print, canonicalize_into-over}
use anchor_rs.Signing.Canonical.Order.{
  Same, SameFields, canonicalize_into-Same, IsSorted, sort_entries-IsSorted,
}
use anchor_rs.Signing.Canonical.Order
use anchor_rs.Signing.Canonical.Strings.{decode_string, decode_string-escape_string}
use anchor_rs.Signing.Payload.{text, object_to_signable, encode_length, format_data}
use anchor_rs.Signing.Payload.Length.{decode_length, decode_length-encode_length}
use anchor_rs.Signing.Payload.Laws.{Printed, object_to_signable-ok_iff}
use anchor_rs.Signing.Envelope.Sign.{sign_with}
use anchor_rs.Signing.Envelope.Verify.{verify_envelope, within_skew}
use anchor_rs.Signing.Envelope.Verify.Laws.{
  Accepted, verify_envelope-success_iff, verify_envelope-sign_with,
}
use anchor_rs.Signing.Request.{
  first_present, duplicate_parameter, param_nonce, add_signature_to_url, parse_signature_from_url,
}
use anchor_rs.Signing.Request.Laws.{
  Appends, parse_signature_from_url-add_signature_to_url, add_signature_to_url-twice,
}

-- { "b": [true, null], "a": 7 }
abbrev seven : Value
seven = number (record { as_i64 = some (pos 7); as_u64 = some 7; as_f64_finite = some true })

abbrev sample : Value
sample =
    object
      (field (codes "b") (array (cons (bool true) (cons null nil))) (field (codes "a") seven end))

canonicalize_into-print_example :
    canonicalize_into sample (some 9) ≡ some (print (normalize sample))
unfolding count_nodes
canonicalize_into-print_example = canonicalize_into-print sample (some 9) (omega arith)

canonicalize_into-over_example :
    (e : SigningError) × (canonicalize_into sample (some 3) ≡ some (err e))
unfolding count_nodes
canonicalize_into-over_example = canonicalize_into-over sample 3 (omega arith)

-- The same object with its two entries in the other order.
abbrev swapped : Value
swapped =
    object
      (field (codes "a") seven (field (codes "b") (array (cons (bool true) (cons null nil))) end))

canonicalize_into-Same_example :
    canonicalize_into sample (some 20) ≡ canonicalize_into swapped (some 20)
unfolding count_nodes cmp_utf16
canonicalize_into-Same_example =
    canonicalize_into-Same {v = sample} {w = swapped} (some 20)
      (Order.in_object (Order.swap (λ h. cc))) (omega arith)

sort_entries-IsSorted_example :
    IsSorted (sort_entries (field (codes "b") null (field (codes "a") seven end)))
sort_entries-IsSorted_example =
    sort_entries-IsSorted (field (codes "b") null (field (codes "a") seven end))

decode_string-escape_string_example :
    decode_string (escape_string (codes "a\"b") ++ codes ",") ≡ some (codes "a\"b", codes ",")
decode_string-escape_string_example = decode_string-escape_string (codes "a\"b") (codes ",")

object_to_signable-ok_iff_example :
    (object_to_signable (bool true) ≡ some (ok (text (codes "true") ∷ [])))
    ↔ Printed (bool true) (text (codes "true") ∷ [])
object_to_signable-ok_iff_example = object_to_signable-ok_iff (bool true) (text (codes "true") ∷ [])

decode_length-encode_length_example :
    decode_length (encode_length 300 ++ 1 ∷ 2 ∷ []) ≡ some (300, 1 ∷ 2 ∷ [])
decode_length-encode_length_example = decode_length-encode_length 300 (1 ∷ 2 ∷ []) (omega arith)

verify_envelope-success_iff_example :
    (verify_envelope noon bare plain copier parts envelope options ≡ success tt)
    ↔ Accepted noon bare plain copier parts envelope options
verify_envelope-success_iff_example =
    verify_envelope-success_iff noon bare plain copier parts envelope options

verify_envelope-sign_with_example :
    (instant : ℕ) × (some 5 ≡ some instant)
    × (verify_envelope noon bare plain copier parts envelope options
        ≡ within_skew noon options instant)
unfolding sign_with text_eq format_data
verify_envelope-sign_with_example =
    verify_envelope-sign_with noon bare plain copier parts params options {signed = envelope}
      (λ bytes. refl) (λ bytes signature e. verifies bytes signature e) refl

parse_signature_from_url-add_signature_to_url_example :
    parse_signature_from_url queries signed_url ≡ success (codes "me", envelope)
unfolding Appends add_signature_to_url first_present text_eq
parse_signature_from_url-add_signature_to_url_example =
    parse_signature_from_url-add_signature_to_url queries (λ key value url. refl) base signed_url
      (codes "me") envelope refl

add_signature_to_url-twice_example :
    add_signature_to_url queries signed_url (codes "you") envelope
    ≡ failure (duplicate_parameter param_nonce)
unfolding Appends add_signature_to_url first_present text_eq
add_signature_to_url-twice_example =
    add_signature_to_url-twice queries (λ key value url. refl) base signed_url (codes "me")
      (codes "you") envelope envelope refl
