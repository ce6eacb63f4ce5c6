-- ===== src/Service/Caller.antt =====
-- keetanetwork-anchor-client/src/service/caller.rs and endpoint.rs: one operation, from its endpoint
-- template to the decoded answer. The transport, the URL parser, percent encoding and the JSON writer
-- are arguments, and so are the random parameters of a signature.
pub mod Laws
mod Tests
use anchor_rs.Prelude.{
  ℕ, zero, suc, length, Bool, true, false, ◌&&◌, Option, none, some, Text, codes, List, [], ◌∷◌,
  ◌++◌, text_eq, ltb, ◌==◌, if◌then◌else◌,
}
use anchor_rs.Prelude.Outcomes.{Outcome, success, failure, ◌>>=◌, ok_or}
use anchor_rs.Json.{Value, null, string, object, Fields, end, field}
use anchor_rs.Http.Response.{HttpResponse}
use anchor_rs.Http.Errors.{TransportError}
use anchor_rs.Signing.Canonical as Canonical
use anchor_rs.Signing.Canonical.{SigningError}
use anchor_rs.Signing.Payload.{Der, Signable}
use anchor_rs.Signing.Envelope.{Signed, SignParams, Chrono, Base64, Account}
use anchor_rs.Signing.Envelope.Sign.{sign_with}
use anchor_rs.Signing.Request.{RequestError, UrlOps, add_signature_to_url}
use anchor_rs.Service.Envelope.{AnchorOutcome, ResponseError, Envelope, classify}

pub data Auth : Type 0 where
  unsigned signed_url signed_body : Auth

pub data BodyEnvelope : Type 0 where
  request flat : BodyEnvelope

pub data Method : Type 0 where
  get_method post_method : Method

pub record Call : Type 0 where
  pub template : Text
  pub params : List (Text × Text)
  pub method : Method
  pub auth : Auth
  pub signed : List Signable
  pub envelope : BodyEnvelope
  pub body : Option Value

-- The variants of `AnchorClientError` that a call gives.
pub data CallError : Type 0 where
  url body : CallError
  signing : SigningError → CallError
  rejected : RequestError → CallError
  transport : TransportError → CallError
  response : ResponseError → CallError

pub record AnchorHttpTransport (Body : Type 0) : Type 0 where
  pub get : Text → Outcome TransportError HttpResponse
  pub post : Text → Body → Outcome TransportError HttpResponse

-- `Url::parse`, `Url::as_str`, `utf8_percent_encode` at `COMPONENT`, and `serde_json::to_vec`:
-- `Body` is the bytes of a request, which the source only hands on.
pub record Codecs (ops : UrlOps) : Type 1 where
  pub parse : Text → Option (ops.Url)
  pub as_str : ops.Url → Text
  pub percent_encode : Text → Text
  pub Body : Type 0
  pub to_vec : Value → Option Body

-- What follows a prefix.
unfoldable pub strip_prefix : Text → Text → Option Text
strip_prefix [] s = some s
strip_prefix (a ∷ p) [] = none
strip_prefix (a ∷ p) (b ∷ s) = if a == b then strip_prefix p s else none

-- `str::replace` of a placeholder, which is not empty: `skip` counts what is left of a match.
unfoldable pub replace_from : (pattern with_text : Text) → (skip : ℕ) → Text → Text
replace_from pattern with_text skip [] = []
replace_from pattern with_text (suc skip) (c ∷ s) = replace_from pattern with_text skip s
replace_from pattern with_text zero (c ∷ s) =
    matched (strip_prefix pattern (c ∷ s)) (replace_from pattern with_text (drop_first pattern) s)
      (replace_from pattern with_text zero s)
  where
    drop_first : Text → ℕ
    drop_first [] = 0
    drop_first (_ ∷ p) = length p

    matched : Option Text → Text → Text → Text
    matched none skipped rest = c ∷ rest
    matched (some _) skipped rest = with_text ++ skipped

-- `format!("{{{key}}}")`
abbrev pub placeholder : Text → Text
placeholder key = 123 ∷ key ++ 125 ∷ []

-- The loop of `Endpoint::url`.
unfoldable pub fill : (percent_encode : Text → Text) → Text → List (Text × Text) → Text
unfolding replace_from
fill percent_encode filled [] = filled
fill percent_encode filled ((key, value) ∷ params) =
    fill percent_encode (replace_from (placeholder key) (percent_encode value) zero filled) params

-- The order of the keys of a map, by code points.
unfoldable pub text_ltb : Text → Text → Bool
text_ltb [] [] = false
text_ltb [] (b ∷ t) = true
text_ltb (a ∷ s) [] = false
text_ltb (a ∷ s) (b ∷ t) = if a == b then text_ltb s t else ltb a b

-- `Map::insert`: the map is sorted by its keys.
unfoldable pub insert : Text → Value → Fields → Fields
unfolding text_ltb
insert key value end = field key value end
insert key value (field k v fs) =
    let rest = insert key value fs in
    if text_eq k key
    then field key value fs
    else if text_ltb key k
    then field key value (field k v fs)
    else field k v rest

-- `signed_field`
unfoldable pub signed_field : Signed → Value
unfolding insert
signed_field signed = object (
    insert (codes "signature") (string signed.signature) (
      insert (codes "timestamp") (string signed.timestamp)
        (insert (codes "nonce") (string signed.nonce) end)))

-- The fields of a body: anything but an object has none.
abbrev pub body_fields : Option Value → Fields
body_fields (some (object fs)) = fs
body_fields (some null) = end
body_fields (some _) = end
body_fields none = end

abbrev pub of_signing : {A : Type 0} → Canonical.Result A → Outcome CallError A
of_signing (Canonical.ok a) = success a
of_signing (Canonical.err e) = failure (signing e)

abbrev pub of_request : {A : Type 0} → Outcome RequestError A → Outcome CallError A
of_request (success a) = success a
of_request (failure e) = failure (rejected e)

abbrev pub of_transport : {A : Type 0} → Outcome TransportError A → Outcome CallError A
of_transport (success a) = success a
of_transport (failure e) = failure (transport e)

abbrev pub of_response : {A : Type 0} → Outcome ResponseError A → Outcome CallError A
of_response (success a) = success a
of_response (failure e) = failure (response e)

-- An `AnchorCaller`: its signer, the signer's text form, and its transport.
module _ (chrono : Chrono) (der : Der) (base64 : Base64) (ops : UrlOps) (codecs : Codecs ops)
    (http : AnchorHttpTransport codecs.Body) (signer : Account) (account : Text) where
  -- `sign`, with the parameters that it generates.
  unfoldable pub sign_call : List Signable → SignParams → Outcome CallError Signed
  sign_call payload params = of_signing (sign_with chrono der base64 signer payload params)

  unfoldable pub endpoint_url : Call → Outcome CallError (ops.Url)
  endpoint_url call =
      ok_or url (codecs.parse (fill codecs.percent_encode call.template call.params))

  unfoldable pub authenticated_url :
      SignParams → Auth → List Signable → ops.Url → Outcome CallError (ops.Url)
  authenticated_url params signed_url signed base = do
    envelope ← sign_call signed params
    of_request (add_signature_to_url ops base account envelope)
  authenticated_url params unsigned signed base = success base
  authenticated_url params signed_body signed base = success base

  unfoldable pub body_signature :
      SignParams → Auth → List Signable → Outcome CallError (Option Signed)
  body_signature params signed_body signed = do
    signature ← sign_call signed params
    success (some signature)
  body_signature params unsigned signed = success none
  body_signature params signed_url signed = success none

  -- The `match` on the envelope.
  unfoldable pub shaped : BodyEnvelope → Option Signed → Fields → Value
  unfolding signed_field
  shaped request (some signature) fs = object (
      insert (codes "request")
        (object (
          insert (codes "signed") (signed_field signature)
            (insert (codes "account") (string account) fs)))
        end)
  shaped request none fs = object (insert (codes "request") (object fs) end)
  shaped flat (some signature) fs = object (insert (codes "signed") (signed_field signature) fs)
  shaped flat none fs = object fs

  unfoldable pub request_body :
      SignParams
      → Auth
      → BodyEnvelope
      → List Signable
      → Option Value
      → Outcome CallError (codecs.Body)
  request_body params auth envelope signed payload = do
    signature ← body_signature params auth signed
    ok_or body (codecs.to_vec (shaped envelope signature (body_fields payload)))

  -- `dispatch`, with `send_get` and `send_post`.
  unfoldable pub dispatch : SignParams → Call → ops.Url → Outcome CallError HttpResponse
  dispatch params call base = by_method call.method
    where
      by_method : Method → Outcome CallError HttpResponse
      by_method get_method = do
        target ← authenticated_url params call.auth call.signed base
        of_transport (http.get (codecs.as_str target))
      by_method post_method = do
        payload ← request_body params call.auth call.envelope call.signed call.body
        of_transport (http.post (codecs.as_str base) payload)

  unfoldable pub send : SignParams → Call → Outcome CallError HttpResponse
  send params call = do base ← endpoint_url call; dispatch params call base

  unfoldable pub invoke :
      {A : Type 0} (envelope_from : List ℕ → Option Envelope) (value_from : List ℕ → Option Value)
      (decode : List ℕ → Option A)
      → SignParams
      → Call
      → Outcome CallError (AnchorOutcome A)
  invoke envelope_from value_from decode params call = do
    answer ← send params call
    of_response (classify envelope_from value_from decode answer)
