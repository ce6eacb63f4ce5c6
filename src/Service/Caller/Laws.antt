-- ===== src/Service/Caller/Laws.antt =====
-- What a call of keetanetwork-anchor-client/src/service/caller.rs sends, and what a service that
-- checks it finds.
use anchor_rs.Prelude.{ℕ, true, Option, none, some, and_then, Text, List, ◌≡◌}
use anchor_rs.Prelude.Outcomes.{Outcome, success, ◌>>=◌}
use anchor_rs.Json.{Value, null, string, get}
use anchor_rs.Signing.Canonical as Canonical
use anchor_rs.Signing.Payload.{Der}
use anchor_rs.Signing.Envelope.{Signed, Chrono, Base64, Account, VerifyOptions}
use anchor_rs.Signing.Envelope.Verify.{within_skew}
use anchor_rs.Signing.Request.{UrlOps, RequestError, as_request}
use anchor_rs.Service.Caller.{AnchorHttpTransport, Codecs}

-- How a service reads the credentials of an object: the text at `account`, and the envelope at
-- `signed`.
abbrev pub text_of : Option Value → Option Text
text_of (some (string s)) = some s
text_of (some null) = none
text_of (some _) = none
text_of none = none

abbrev pub both_texts : Option Text → Option Text → Option Text → Option Signed
both_texts (some nonce) (some timestamp) (some signature) =
    some (record { nonce = nonce; timestamp = timestamp; signature = signature })
both_texts (some nonce) (some timestamp) none = none
both_texts (some nonce) none signature = none
both_texts none timestamp signature = none

unfoldable pub read_signed : Value → Option Signed
read_signed v =
    both_texts (text_of (get "nonce" v)) (text_of (get "timestamp" v)) (text_of (get "signature" v))

abbrev pub credentials : Option Text → Option Signed → Option (Text × Signed)
credentials none signed = none
credentials (some account) none = none
credentials (some account) (some signed) = some (account, signed)

unfoldable pub read_credentials : Value → Option (Text × Signed)
read_credentials v = credentials (text_of (get "account" v)) (and_then (get "signed" v) read_signed)

module _ (chrono : Chrono) (der : Der) (base64 : Base64) (ops : UrlOps) (codecs : Codecs ops)
    (http : AnchorHttpTransport codecs.Body) (signer : Account) (account : Text)
    (from_str : Text → Option Account)
    (decode-encode : (bytes : List ℕ) → base64.decode (base64.encode bytes) ≡ some bytes)
    (verify-sign : (bytes signature : List ℕ)
      → signer.sign bytes ≡ some signature
      → signer.verify bytes signature ≡ true)
    (named : from_str account ≡ some signer) where
  -- The answer of a service that checks the envelope: it depends on the time alone.
  abbrev pub timely : VerifyOptions chrono → chrono.Instant → Outcome RequestError Account
  timely options instant = do _ ← as_request (within_skew chrono options instant); success signer
