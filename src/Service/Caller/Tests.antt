-- ===== src/Service/Caller/Tests.antt =====
-- Calls of keetanetwork-anchor-client/src/service/caller.rs over a toy clock, account, URL and JSON.
use anchor_rs.Prelude.{◌≡◌, refl, Option, some, Text, codes, [], ◌∷◌, ◌++◌, text_eq}
use anchor_rs.Prelude.Outcomes.{success}
use anchor_rs.Json.{Value, object, field, end, string, get}
use anchor_rs.Http.Response as Response
use anchor_rs.Http.Response.{HttpResponse}
use anchor_rs.Signing.Envelope.{Account}
use anchor_rs.Signing.Toy.{noon, plain, bare, copier, params, parts, envelope, queries, base}
use anchor_rs.Service.Caller as Caller
use anchor_rs.Service.Caller.{
  Codecs, AnchorHttpTransport, Call, CallError, unsigned, signed_body, request, get_method,
  post_method, fill, request_body, dispatch, send,
}

-- A body is the value itself; every URL parses to the query of `base`.
abbrev codecs : Codecs queries
codecs = record {
  parse = λ t. some base;
  as_str = λ url. codes "url";
  percent_encode = λ t. codes "%" ++ t;
  Body = Value;
  to_vec = some;
}

abbrev http : AnchorHttpTransport Value
http = record {
  get = λ target. success (Response.new 200 []);
  post = λ target payload. success (Response.new 202 []);
}

abbrev payload : Option Value
payload = some (object (field (codes "zip") (string (codes "1")) end))

filled :
    fill
      (λ t. codes "%" ++ t)
      (codes "/v/{id}/{id}?{x}")
      ((codes "id", codes "{x}") ∷ (codes "x", codes "2") ∷ [])
    ≡ codes "/v/%%2/%%2?%2"
unfolding fill Caller.strip_prefix
filled = refl

abbrev accounts : Text → Option Account
accounts t = some copier

abbrev signed_payload : Value
signed_payload = object (
    field (codes "request")
      (object (
        field (codes "account") (string (codes "me")) (
          field (codes "signed")
            (object (
              field (codes "nonce") (string (codes "n")) (
                field (codes "signature") (string envelope.signature)
                  (field (codes "timestamp") (string (codes "noon")) end))))
            (field (codes "zip") (string (codes "1")) end))))
      end)

abbrev sent : Call
sent = record {
  template = codes "/v/{id}";
  params = (codes "id", codes "7") ∷ [];
  method = post_method;
  auth = signed_body;
  signed = parts;
  envelope = request;
  body = payload;
}

sent_status :
    send noon bare plain queries codecs http copier (codes "me") params sent
    ≡ success (Response.new 202 [])
unfolding send Caller.endpoint_url dispatch request_body Caller.body_signature Caller.sign_call
    anchor_rs.Signing.Envelope.Sign.sign_with text_eq anchor_rs.Signing.Payload.format_data
sent_status = refl
