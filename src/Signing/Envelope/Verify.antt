-- ===== src/Signing/Envelope/Verify.antt =====
-- `verify_envelope` of keetanetwork-anchor/src/signing/mod.rs, and the error it names.
pub mod Laws
use anchor_rs.Prelude.{
  ℕ, Bool, true, ℤ, pos, negsuc, unsigned_abs, ◌-ℤ◌, Option, none, some, Text, List, text_eq, ltb,
  if◌then◌else◌,
}
use anchor_rs.Prelude.Outcomes.{Outcome, success, failure, ◌>>=◌, ok_or}
use anchor_rs.Signing.Canonical.{Result, ok, err}
use anchor_rs.Signing.Payload.{Der, Signable, format_data}
use anchor_rs.Signing.Envelope.{Signed, Chrono, Base64, Account, VerifyOptions}

pub data VerifyError : Type 0 where
  signature_mismatch malformed_timestamp malformed_signature encoding : VerifyError
  clock_skew : (skew_ms : ℕ) (max_ms : ℤ) → VerifyError

-- `skew > max_skew_ms`, where a skew is never negative.
unfoldable pub exceeds : ℕ → ℤ → Bool
exceeds skew (pos max) = ltb max skew
exceeds skew (negsuc max) = true

module _ (chrono : Chrono) where
  -- The instant of a timestamp in the one form that is accepted.
  unfoldable pub canonical_instant : Text → Outcome VerifyError (chrono.Instant)
  canonical_instant timestamp = do
    instant ← ok_or malformed_timestamp (chrono.parse timestamp)
    if text_eq (chrono.format_iso8601 instant) timestamp
        then success instant
        else failure malformed_timestamp

  abbrev pub skew_of : VerifyOptions chrono → chrono.Instant → ℕ
  skew_of options instant =
      unsigned_abs (chrono.millis instant -ℤ chrono.millis options.reference_time)

  unfoldable pub within_skew : VerifyOptions chrono → chrono.Instant → Outcome VerifyError Unit
  unfolding exceeds
  within_skew options instant =
      if exceeds (skew_of options instant) options.max_skew_ms
      then failure (clock_skew (skew_of options instant) options.max_skew_ms)
      else success tt

abbrev pub encoded : Result (List ℕ) → Outcome VerifyError (List ℕ)
encoded (ok bytes) = success bytes
encoded (err e) = failure encoding

module _ (chrono : Chrono) (der : Der) (base64 : Base64) where
  -- `verify_envelope`, which `verify` calls.
  unfoldable pub verify_envelope :
      Account → List Signable → Signed → VerifyOptions chrono → Outcome VerifyError Unit
  unfolding canonical_instant within_skew
  verify_envelope signer parts signed options = do
    instant ← canonical_instant chrono signed.timestamp
    timely ← within_skew chrono options instant
    signature ← ok_or malformed_signature (base64.decode signed.signature)
    verification ←
        encoded (format_data der signer.public_key_with_type signed.nonce signed.timestamp parts)
    if signer.verify verification signature then success tt else failure signature_mismatch
