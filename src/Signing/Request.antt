-- ===== src/Signing/Request.antt =====
-- keetanetwork-anchor/src/signing/request.rs: signed URLs and signed bodies. The URL type (crate url)
-- and the decoding of an account string are arguments.
pub mod Laws
use anchor_rs.Prelude.{
  ℕ, Bool, false, true, ◌||◌, Option, none, some, Text, codes, List, [], ◌∷◌, text_eq, any,
  if◌then◌else◌,
}
use anchor_rs.Prelude.Outcomes.{Outcome, success, failure, ◌>>=◌, ok_or}
use anchor_rs.Signing.Payload.{Der, Signable}
use anchor_rs.Signing.Envelope.{Signed, Chrono, Base64, Account, VerifyOptions}
use anchor_rs.Signing.Envelope.Verify.{VerifyError, verify_envelope}

-- `RequestError`
pub data RequestError : Type 0 where
  duplicate_parameter : (name : Text) → RequestError
  incomplete_signature missing_authentication malformed_account : RequestError
  rejected : VerifyError → RequestError

-- `Url`: its decoded query pairs and the appending of one.
pub record UrlOps : Type 1 where
  pub Url : Type 0
  pub query_pairs : Url → List (Text × Text)
  pub append_pair : Text → Text → Url → Url

abbrev pub param_nonce : Text
param_nonce = codes "signed.nonce"

abbrev pub param_timestamp : Text
param_timestamp = codes "signed.timestamp"

abbrev pub param_signature : Text
param_signature = codes "signed.signature"

abbrev pub param_account : Text
param_account = codes "account"

abbrev pub signed_params : List Text
signed_params = param_nonce ∷ param_timestamp ∷ param_signature ∷ []

unfoldable pub has_key : Text → List (Text × Text) → Bool
has_key name [] = false
has_key name ((key, value) ∷ pairs) = text_eq key name || has_key name pairs

-- The first of the names that a pair has for its key.
unfoldable pub first_present : List Text → List (Text × Text) → Option Text
unfolding has_key
first_present [] pairs = none
first_present (name ∷ names) pairs =
    let rest = first_present names pairs in if has_key name pairs then some name else rest

-- The four variables of the loop of `parse_signature_from_url`.
pub record Fields : Type 0 where
  pub nonce : Option Text
  pub timestamp : Option Text
  pub signature : Option Text
  pub account : Option Text

abbrev pub no_fields : Fields
no_fields = record { nonce = none; timestamp = none; signature = none; account = none }

-- One turn of the loop.
unfoldable pub assign : Text → Text → Fields → Fields
assign key value fields =
    if text_eq key param_nonce
    then record fields { nonce = some value }
    else if text_eq key param_timestamp
    then record fields { timestamp = some value }
    else if text_eq key param_signature
    then record fields { signature = some value }
    else if text_eq key param_account
    then record fields { account = some value }
    else fields

unfoldable pub collect : List (Text × Text) → Fields → Fields
unfolding assign
collect [] fields = fields
collect ((key, value) ∷ pairs) fields = collect pairs (assign key value fields)

-- The `match` on the three optional fields of the envelope.
unfoldable pub complete : Option Text → Option Text → Option Text → Outcome RequestError Signed
complete (some nonce) (some timestamp) (some signature) =
    success (record { nonce = nonce; timestamp = timestamp; signature = signature })
complete none none none = failure missing_authentication
complete _ _ _ = failure incomplete_signature

abbrev pub unless_duplicate : {A : Type 0} → Option Text → A → Outcome RequestError A
unless_duplicate none url = success url
unless_duplicate (some name) url = failure (duplicate_parameter name)

module _ (ops : UrlOps) where
  -- `add_signature_to_url`
  unfoldable pub add_signature_to_url : ops.Url → Text → Signed → Outcome RequestError (ops.Url)
  add_signature_to_url base account signed =
      unless_duplicate (first_present signed_params (ops.query_pairs base)) (
        ops.append_pair param_account account (
          ops.append_pair param_signature signed.signature (
            ops.append_pair param_timestamp signed.timestamp
              (ops.append_pair param_nonce signed.nonce base))))

  -- `parse_signature_from_url`
  unfoldable pub parse_signature_from_url : ops.Url → Outcome RequestError (Text × Signed)
  unfolding collect complete
  parse_signature_from_url url =
      let fields = collect (ops.query_pairs url) no_fields in
      do
        signed ← complete fields.nonce fields.timestamp fields.signature
        account ← ok_or missing_authentication fields.account
        success (account, signed)

abbrev pub as_request : {A : Type 0} → Outcome VerifyError A → Outcome RequestError A
as_request (success a) = success a
as_request (failure e) = failure (rejected e)

-- `GenericAccount::from_str` is `from_str`.
module _ (chrono : Chrono) (der : Der) (base64 : Base64) (from_str : Text → Option Account) where
  -- `verify_body`
  unfoldable pub verify_body :
      Text → Signed → List Signable → VerifyOptions chrono → Outcome RequestError Account
  verify_body account_string signed parts options = do
    account ← ok_or malformed_account (from_str account_string)
    verified ← as_request (verify_envelope chrono der base64 account parts signed options)
    success account

  -- `verify_url`
  unfoldable pub verify_url :
      (ops : UrlOps) → ops.Url → List Signable → VerifyOptions chrono → Outcome RequestError Account
  unfolding parse_signature_from_url
  verify_url ops url parts options = do
    (account_string, signed) ← parse_signature_from_url ops url
    account ← ok_or malformed_account (from_str account_string)
    verified ← as_request (verify_envelope chrono der base64 account parts signed options)
    success account
