-- ===== src/Sensitive.antt =====
-- keetanetwork-anchor/src/sensitive_attributes: encrypted attributes and the proofs of their values
-- (mod.rs, builder.rs, utils.rs). Key pairs, AES-GCM, SHA3, base64 and the DER codec are code of other
-- crates; the random draws are arguments.
pub mod Laws
mod Tests
use anchor_rs.Prelude.{
  ℕ, ◌^◌, Bool, true, false, not, ℤ, pos, negsuc, Option, none, some, List, [], ◌++◌, Text, text_eq,
  ltb, ◌==◌, if◌then◌else◌,
}
use anchor_rs.Prelude.Outcomes.{Outcome, success, failure, ◌>>=◌, ok_or}
use anchor_rs.Signing.Envelope.{Base64}

abbrev pub Bytes : Type 0
Bytes = List ℕ

pub data SensitiveError : Type 0 where
  missing_value unsupported_key_type invalid_version invalid_proof invalid_utf8 account_error
        crypto_error asn1_error :
      SensitiveError
  unsupported_version : (version : ℕ) → SensitiveError
  invalid_attribute_is_sensitive invalid_attribute_is_plain : (name : Text) → SensitiveError

abbrev pub Result : Type 0 → Type 0
Result A = Outcome SensitiveError A

-- `SensitiveAttribute` and its parts, which the build generates from their ASN.1 schema.
pub record SensitiveAttributeCipher : Type 0 where
  pub algorithm : Bytes
  pub iv_or_nonce : Bytes
  pub key : Bytes

pub record SensitiveAttributeHashedValue : Type 0 where
  pub encrypted_salt : Bytes
  pub algorithm : Bytes
  pub value : Bytes

pub record SensitiveAttribute : Type 0 where
  pub version : ℤ
  pub cipher : SensitiveAttributeCipher
  pub hashed_value : SensitiveAttributeHashedValue
  pub encrypted_value : Bytes

-- The code of other crates; `none` is an error of that code. `cipher_new` is `Aes256Gcm::new`.
pub record Primitives : Type 1 where
  pub KeyPair : Type 0
  pub supports_encryption : KeyPair → Bool
  pub to_public_key : KeyPair → Bytes
  pub encrypt : KeyPair → Bytes → Option Bytes
  pub decrypt : KeyPair → Bytes → Option Bytes
  pub Aes256Gcm : Type 0
  pub cipher_new : Bytes → Option Aes256Gcm
  pub cipher_encrypt : Aes256Gcm → (nonce message : Bytes) → Option Bytes
  pub cipher_decrypt : Aes256Gcm → (nonce ciphertext : Bytes) → Option Bytes
  pub sha3_256 : Bytes → Bytes
  pub from_utf8 : Bytes → Option Text
  pub base64 : Base64
  pub oid_aes_256_gcm : Bytes
  pub oid_sha3_256 : Bytes

-- The random draws of one build.
pub record Draws : Type 0 where
  pub salt : Option Bytes
  pub symmetric_key : Option Bytes
  pub nonce : Bytes

pub record SensitiveAttributeBuilder : Type 0 where
  pub value : Option Bytes

abbrev pub new : SensitiveAttributeBuilder
new = record { value = none }

unfoldable pub with_value : Bytes → SensitiveAttributeBuilder → SensitiveAttributeBuilder
with_value value builder = record builder { value = some value }

pub data KycAttributeEntry : Type 0 where
  plain_text sensitive : Bytes → KycAttributeEntry

-- `From<&KycAttributeEntry> for SensitiveAttributeBuilder`
unfoldable pub from_entry : KycAttributeEntry → SensitiveAttributeBuilder
from_entry (plain_text value) = with_value value new
from_entry (sensitive value) = with_value value new

pub record SensitiveAttributeProof : Type 0 where
  pub value : Text
  pub salt : Text

unfoldable pub create_hash_input : (salt public_key encrypted_value plaintext_value : Bytes) → Bytes
create_hash_input salt public_key encrypted_value plaintext_value =
    salt ++ (public_key ++ (encrypted_value ++ plaintext_value))

-- `u64::try_from` of an `Integer`.
unfoldable pub try_into_u64 : ℤ → Option ℕ
try_into_u64 (pos n) = if ltb n (2 ^ 64) then some n else none
try_into_u64 (negsuc n) = none

unfoldable pub assert_valid_version : ℤ → Result ℕ
unfolding try_into_u64
assert_valid_version version = do
  number ← ok_or invalid_version (try_into_u64 version)
  if not (number == 0) then failure (unsupported_version number) else success number

-- `validate_attribute_sensitivity`, of what `Attribute::is_sensitive` says.
unfoldable pub validate_attribute_sensitivity :
    (is_sensitive : Bool) (name : Text) (expected_sensitive : Bool) → Result Unit
validate_attribute_sensitivity true name true = success tt
validate_attribute_sensitivity false name false = success tt
validate_attribute_sensitivity false name true = failure (invalid_attribute_is_plain name)
validate_attribute_sensitivity true name false = failure (invalid_attribute_is_sensitive name)

unfoldable pub assert_attribute_is_sensitive : (is_sensitive : Bool) (name : Text) → Result Unit
assert_attribute_is_sensitive is_sensitive name =
    validate_attribute_sensitivity is_sensitive name true

unfoldable pub assert_attribute_is_plain : (is_sensitive : Bool) (name : Text) → Result Unit
assert_attribute_is_plain is_sensitive name = validate_attribute_sensitivity is_sensitive name false

module _ (prim : Primitives) where
  open prim use {
    KeyPair, supports_encryption, to_public_key, encrypt, decrypt, Aes256Gcm, cipher_new,
    cipher_encrypt, cipher_decrypt, sha3_256, from_utf8, base64, oid_aes_256_gcm, oid_sha3_256,
  }

  abbrev pub assert_encrypts : KeyPair → Result Unit
  assert_encrypts keypair =
      if not (supports_encryption keypair) then failure unsupported_key_type else success tt

  -- `SensitiveAttributeBuilder::build`
  unfoldable pub build : Draws → KeyPair → SensitiveAttributeBuilder → Result SensitiveAttribute
  build draws keypair builder = do
    value ← ok_or missing_value builder.value
    _ ← assert_encrypts keypair
    salt ← ok_or crypto_error draws.salt
    symmetric_key ← ok_or crypto_error draws.symmetric_key
    encrypted_key ← ok_or account_error (encrypt keypair symmetric_key)
    cipher ← ok_or crypto_error (cipher_new symmetric_key)
    encrypted_value ← ok_or crypto_error (cipher_encrypt cipher draws.nonce value)
    encrypted_salt ← ok_or crypto_error (cipher_encrypt cipher draws.nonce salt)
    success (record {
      version = pos 0;
      cipher = record {
        algorithm = oid_aes_256_gcm;
        iv_or_nonce = draws.nonce;
        key = encrypted_key;
      };
      hashed_value = record {
        encrypted_salt = encrypted_salt;
        algorithm = oid_sha3_256;
        value = sha3_256 (create_hash_input salt (to_public_key keypair) encrypted_value value);
      };
      encrypted_value = encrypted_value;
    })

  unfoldable pub setup_cipher_for_decryption :
      KeyPair → SensitiveAttributeCipher → Result (Aes256Gcm × Bytes)
  setup_cipher_for_decryption keypair info = do
    symmetric_key ← ok_or account_error (decrypt keypair info.key)
    cipher ← ok_or crypto_error (cipher_new symmetric_key)
    success (cipher, info.iv_or_nonce)

  -- `SensitiveAttribute::decrypt`
  unfoldable pub decrypt_attribute : KeyPair → SensitiveAttribute → Result Bytes
  decrypt_attribute keypair attribute = do
    _ ← assert_valid_version attribute.version
    _ ← assert_encrypts keypair
    (cipher, nonce) ← setup_cipher_for_decryption keypair attribute.cipher
    ok_or crypto_error (cipher_decrypt cipher nonce attribute.encrypted_value)

  unfoldable pub decrypt_as_string : KeyPair → SensitiveAttribute → Result Text
  decrypt_as_string keypair attribute = do
    bytes ← decrypt_attribute keypair attribute
    ok_or invalid_utf8 (from_utf8 bytes)

  unfoldable pub to_proof : KeyPair → SensitiveAttribute → Result SensitiveAttributeProof
  to_proof keypair attribute = do
    value ← decrypt_attribute keypair attribute
    (cipher, nonce) ← setup_cipher_for_decryption keypair attribute.cipher
    salt ← ok_or crypto_error (cipher_decrypt cipher nonce attribute.hashed_value.encrypted_salt)
    success (record { value = base64.encode value; salt = base64.encode salt })

  unfoldable pub validate_proof :
      KeyPair → SensitiveAttributeProof → SensitiveAttribute → Result Bool
  validate_proof keypair proof attribute = do
    value ← ok_or invalid_proof (base64.decode proof.value)
    salt ← ok_or invalid_proof (base64.decode proof.salt)
    success (
        text_eq
          (sha3_256
            (create_hash_input salt (to_public_key keypair) attribute.encrypted_value value))
          attribute.hashed_value.value)
