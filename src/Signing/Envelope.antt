-- ===== src/Signing/Envelope.antt =====
-- keetanetwork-anchor/src/signing/mod.rs: signing and verifying an envelope. The clock and its text
-- form (chrono), base64, the DER encoder and the accounts' cryptography are arguments.
pub mod Sign
pub mod Verify
use anchor_rs.Prelude.{ℕ, ◌^◌, ◌-◌, ◌*◌, Bool, ℤ, pos, negsuc, Option, Text, List}

pub record Signed : Type 0 where
  pub nonce : Text
  pub timestamp : Text
  pub signature : Text

pub record SignParams : Type 0 where
  pub nonce : Text
  pub timestamp : Text

-- `DateTime<Utc>` with `parse_from_rfc3339`, `timestamp_millis` and `to_rfc3339_opts(Millis, true)`.
pub record Chrono : Type 1 where
  pub Instant : Type 0
  pub epoch : Instant
  pub parse : Text → Option Instant
  pub millis : Instant → ℤ
  pub format_iso8601 : Instant → Text

-- The standard engine of base64.
pub record Base64 : Type 0 where
  pub encode : List ℕ → Text
  pub decode : Text → Option (List ℕ)

-- `AccountPublicKey`, `AccountSigner` and `AccountVerifier`; `none` is an account error.
pub record Account : Type 0 where
  pub public_key_with_type : List ℕ
  pub sign : List ℕ → Option (List ℕ)
  pub verify : List ℕ → List ℕ → Bool

abbrev pub default_max_skew_ms : ℤ
default_max_skew_ms = pos (5 * 60 * 1000)

pub record VerifyOptions (chrono : Chrono) : Type 0 where
  pub max_skew_ms : ℤ
  pub reference_time : chrono.Instant

-- `VerifyOptions::unbounded`
abbrev pub unbounded : (chrono : Chrono) → VerifyOptions chrono
unbounded chrono = record { max_skew_ms = pos (2 ^ 63 - 1); reference_time = chrono.epoch }
