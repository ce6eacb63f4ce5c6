-- ===== src/Signing/Envelope/Sign.antt =====
-- The signing half of keetanetwork-anchor/src/signing/mod.rs.
use anchor_rs.Prelude.{ℕ, Option, none, some, Text, List, text_eq, if◌then◌else◌}
use anchor_rs.Signing.Canonical.{
  Result, ok, err, SigningError, non_canonical_timestamp, account, ◌>>=◌,
}
use anchor_rs.Signing.Payload.{Der, Signable, format_data}
use anchor_rs.Signing.Envelope.{Signed, SignParams, Chrono, Base64, Account}

-- A missing value as the error that names it.
abbrev pub ok_or : {A : Type 0} → SigningError → Option A → Result A
ok_or e none = err e
ok_or e (some a) = ok a

module _ (chrono : Chrono) (der : Der) (base64 : Base64) where
  -- `ensure_canonical_timestamp`
  unfoldable pub ensure_canonical_timestamp : Text → Result (Unit {0})
  ensure_canonical_timestamp timestamp = do
    parsed ← ok_or non_canonical_timestamp (chrono.parse timestamp)
    if text_eq (chrono.format_iso8601 parsed) timestamp then ok tt else err non_canonical_timestamp

  -- `verification_data`
  unfoldable pub verification_data : Account → List Signable → SignParams → Result (List ℕ)
  verification_data signer parts params =
      format_data der signer.public_key_with_type params.nonce params.timestamp parts

  -- `sign_with`
  unfoldable pub sign_with : Account → List Signable → SignParams → Result Signed
  unfolding ensure_canonical_timestamp verification_data
  sign_with signer parts params = do
    checked ← ensure_canonical_timestamp params.timestamp
    verification ← verification_data signer parts params
    signature ← ok_or account (signer.sign verification)
    ok (record {
      nonce = params.nonce;
      timestamp = params.timestamp;
      signature = base64.encode signature;
    })
