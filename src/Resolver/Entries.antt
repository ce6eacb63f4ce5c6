-- ===== src/Resolver/Entries.antt =====
-- The signature of a provider entry: `entry_signature_ok` and `verify_entry` of
-- keetanetwork-anchor-client/src/resolver/mod.rs and `signed_fields` of resolver/metadata.rs.
pub mod Laws
use anchor_rs.Prelude.{
  Bool, true, false, Option, none, some, and_then, Text, codes, List, if◌then◌else◌,
}
use anchor_rs.Prelude.Outcomes.{Outcome, success, failure}
use anchor_rs.Json.{
  Value, Fields, string, object, field, end, get, get_key, as_str, as_object, is_null,
}
use anchor_rs.Signing.Canonical.{Result, ok, err}
use anchor_rs.Signing.Payload.{Der, Signable, object_to_signable}
use anchor_rs.Signing.Envelope.{Signed, Chrono, Base64, Account, unbounded}
use anchor_rs.Signing.Request.{RequestError, verify_body}

abbrev pub metadata_signature_namespace : Text
metadata_signature_namespace = codes "keetanet/anchor/service-metadata/v1"

abbrev legal_field : Option Value → Fields
legal_field none = end
legal_field (some legal) = if is_null legal then end else field (codes "legal") legal end

-- `signed_fields`; the order of the fields is lost in the canonical text.
unfoldable pub signed_fields : Text → Value → Option Value → Value
signed_fields account operations legal = object (
    field (codes "namespace") (string metadata_signature_namespace) (
      field (codes "account") (string account)
        (field (codes "operations") operations (legal_field legal))))

-- `service_entries`
unfoldable pub service_entries : Text → Value → Option Fields
service_entries service document =
    and_then (and_then (get "services" document) (get_key service)) as_object

abbrev pub is_success : {E A : Type 0} → Outcome E A → Bool
is_success (success a) = true
is_success (failure e) = false

-- `decode_signed` is the derived decoder of `SignedJson`, with `signed_envelope`.
module _ (chrono : Chrono) (der : Der) (base64 : Base64) (from_str : Text → Option Account)
    (decode_signed : Value → Option Signed) where
  -- `verify_body` under the unbounded options.
  abbrev pub body_ok : Text → Option Signed → List Signable → Bool
  body_ok account none parts = false
  body_ok account (some envelope) parts =
      is_success (verify_body chrono der base64 from_str account envelope parts (unbounded chrono))

  abbrev pub signable_ok : Text → Value → Option (Result (List Signable)) → Bool
  signable_ok account signed none = false
  signable_ok account signed (some (err e)) = false
  signable_ok account signed (some (ok parts)) = body_ok account (decode_signed signed) parts

  abbrev pub operations_ok : Text → Value → Value → Option Value → Bool
  operations_ok account entry signed none = false
  operations_ok account entry signed (some operations) =
      signable_ok account signed
        (object_to_signable (signed_fields account operations (get "legal" entry)))

  -- `verify_entry`
  unfoldable pub verify_entry : Text → Value → Value → Bool
  verify_entry account entry signed = operations_ok account entry signed (get "operations" entry)

  abbrev pub credentials_ok : Value → Option Text → Option Value → Bool
  credentials_ok entry none none = true
  credentials_ok entry (some account) (some signed) = verify_entry account entry signed
  credentials_ok entry none (some signed) = false
  credentials_ok entry (some account) none = false

  -- `entry_signature_ok`
  unfoldable pub entry_signature_ok : Value → Bool
  entry_signature_ok entry =
      credentials_ok entry (and_then (get "account" entry) as_str) (get "signed" entry)
