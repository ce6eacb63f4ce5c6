-- ===== src/Resolver/Tests.antt =====
-- A lookup over two concrete documents, and an entry with a signature.
use anchor_rs.Signing.Canonical.{
  ok, canonicalize_into, expand, push_object, sort_entries, cmp_utf16, limit_output, escape_string,
}
use anchor_rs.Signing.Request.{verify_body}
use anchor_rs.Signing.Envelope.Verify.{verify_envelope}
use anchor_rs.Signing.Payload.{Der, object_to_signable, format_data}
use anchor_rs.Signing.Envelope.{Signed, Chrono, Base64, Account}
use anchor_rs.Prelude.{pos}
use anchor_rs.Prelude.{
  ℕ, ◌≡◌, ◌↔◌, refl, Bool, true, Option, none, some, Text, text_eq, codes, [], ◌∷◌,
}
use anchor_rs.Prelude.Outcomes.{success}
use anchor_rs.Json.{Value, null, string, object, field, end, get_key}
use anchor_rs.Resolver.Entries.{entry_signature_ok, verify_entry, signed_fields}
use anchor_rs.Resolver.Entries.Laws.{Verified, entry_signature_ok-Verified_iff}
use anchor_rs.Resolver.Lookup.{lookup}
use anchor_rs.Resolver.Lookup.Laws.{all_entries, merged, kept, lookup-merged}

abbrev document_of : Text → Value
document_of id =
    object
      (field (codes "services") (object (field (codes "kyc") (object (field id null end)) end)) end)

abbrev accept_all : Value → Bool
accept_all entry = true

abbrev take_id : Text → Value → Option Text
take_id id entry = some id

lookup-merged_example :
    lookup (codes "kyc") accept_all take_id (document_of (codes "a") ∷ document_of (codes "b") ∷ [])
    ≡ success (
        kept (codes "kyc") accept_all take_id (
          merged []
            (all_entries (codes "kyc") (document_of (codes "a") ∷ document_of (codes "b") ∷ []))))
lookup-merged_example =
    lookup-merged (codes "kyc") accept_all take_id (document_of (codes "a"))
      (document_of (codes "b") ∷ [])

-- A clock with one instant, codecs that copy, and an account that verifies everything.
abbrev noon : Chrono
noon = record {
  Instant = ℕ;
  epoch = 0;
  parse = λ t. some 0;
  millis = λ n. pos n;
  format_iso8601 = λ n. [];
}

abbrev plain : Base64
plain = record { encode = λ bytes. bytes; decode = λ t. some t }

abbrev bare : Der
bare = record { utf8 = λ t. ok t; octets = λ bytes. ok bytes; integer = λ n. ok [] }

abbrev trusting : Text → Option Account
trusting name =
    some
      (record { public_key_with_type = []; sign = λ bytes. none; verify = λ bytes signature. true })

abbrev decode_signed : Value → Option Signed
decode_signed signed = some (record { nonce = []; timestamp = []; signature = [] })

abbrev entry : Value
entry = object (
    field (codes "account") (string (codes "me"))
      (field (codes "operations") null (field (codes "signed") null end)))

entry_signature_ok-Verified_iff_example :
    (entry_signature_ok noon bare plain trusting decode_signed entry ≡ true)
    ↔ Verified noon bare plain trusting decode_signed (codes "me") entry
unfolding get_key text_eq
entry_signature_ok-Verified_iff_example =
    entry_signature_ok-Verified_iff noon bare plain trusting decode_signed entry (codes "me") refl

-- The entry passes.
entry_passes : entry_signature_ok noon bare plain trusting decode_signed entry ≡ true
unfolding entry_signature_ok get_key text_eq verify_entry object_to_signable canonicalize_into
    signed_fields expand push_object sort_entries cmp_utf16 limit_output escape_string verify_body
    verify_envelope format_data
entry_passes = refl
