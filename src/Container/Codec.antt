-- ===== src/Container/Codec.antt =====
-- keetanetwork-anchor/src/encrypted_container/codec.rs: a plaintext to its transport form and back.
-- The random seeds, which the operating system draws, are arguments.
pub mod Laws
pub mod Opening
pub mod Sealed
pub mod RoundTrip
pub mod Signed
use anchor_rs.Prelude.{
  ℕ, zero, suc, ◌-◌, ◌^◌, Bool, true, false, not, ◌||◌, ℤ, pos, negsuc, Option, none, some, List,
  [], ◌∷◌, ◌++◌, is_empty, text_eq, leb, ltb, ◌==◌, if◌then◌else◌,
}
use anchor_rs.Prelude.Outcomes.{Outcome, success, failure, ◌>>=◌, ok_or}
use anchor_rs.Container.{
  Bytes, KeyPairType, ecdsasecp256k1, ed25519, ecdsasecp256r1, ContainerError, unsupported_version,
  unsupported_cipher_algorithm, unsupported_digest_algorithm, unsupported_signature_algorithm,
  unsupported_key_type, no_keys_provided, no_matching_key, decryption_failed, decompression_failed,
  signer_requires_private_key, account_error, crypto_error, asn1_error, KeyStore, EncryptedBox,
  ContainerBox, plaintext, encrypted, SignerInfo, ContainerPackage, Crypto, Result,
}

abbrev pub container_version : ℕ
container_version = 1

abbrev pub signer_version : ℕ
signer_version = 3

abbrev pub aes_iv_len : ℕ
aes_iv_len = 16

abbrev pub oid_ed25519 : Bytes
oid_ed25519 = 1 ∷ 3 ∷ 101 ∷ 112 ∷ []

abbrev pub oid_secp256k1 : Bytes
oid_secp256k1 = 1 ∷ 3 ∷ 132 ∷ 0 ∷ 10 ∷ []

abbrev pub oid_secp256r1 : Bytes
oid_secp256r1 = 1 ∷ 2 ∷ 840 ∷ 10045 ∷ 3 ∷ 1 ∷ 7 ∷ []

pub record CipherMaterial : Type 0 where
  pub key : Bytes
  pub iv : Bytes

abbrev pub prepend : ℕ → Option Bytes → Option Bytes
prepend b none = none
prepend b (some cs) = some (b ∷ cs)

-- `slice.first_chunk::<n>()` and `slice.get(n..)`.
unfoldable pub first_chunk : ℕ → Bytes → Option Bytes
first_chunk zero bs = some []
first_chunk (suc n) [] = none
first_chunk (suc n) (b ∷ bs) = prepend b (first_chunk n bs)

unfoldable pub get_from : ℕ → Bytes → Option Bytes
get_from zero bs = some bs
get_from (suc n) [] = none
get_from (suc n) (b ∷ bs) = get_from n bs

-- `CipherMaterial::random`, of the outcomes of the two draws.
unfoldable pub random : (key_seed iv_seed : Option Bytes) → Result CipherMaterial
unfolding first_chunk
random key_seed iv_seed = do
  key ← ok_or crypto_error key_seed
  seed ← ok_or crypto_error iv_seed
  iv ← ok_or crypto_error (first_chunk aes_iv_len seed)
  success (record { key = key; iv = iv })

pub record EncryptedBody : Type 0 where
  pub key_stores : List KeyStore
  pub iv : Bytes
  pub ciphertext : Bytes

pub data ContainerBody : Type 0 where
  plaintext_body : (compressed : Bytes) → ContainerBody
  encrypted_body : EncryptedBody → ContainerBody

pub record BareContainer : Type 0 where
  pub body : ContainerBody
  pub signer_info : Option SignerInfo

unfoldable pub is_encrypted_body : ContainerBody → Bool
is_encrypted_body (plaintext_body _) = false
is_encrypted_body (encrypted_body _) = true

-- `BareContainer::is_encrypted`
unfoldable pub is_encrypted : BareContainer → Bool
unfolding is_encrypted_body
is_encrypted bare = is_encrypted_body bare.body

pub record DecodedBody : Type 0 where
  pub compressed : Bytes
  pub plaintext : Bytes

-- `u64::try_from(version).unwrap_or(u64::MAX)`
unfoldable pub to_u64 : ℤ → ℕ
to_u64 (pos n) = if ltb n (2 ^ 64) then n else 2 ^ 64 - 1
to_u64 (negsuc n) = 2 ^ 64 - 1

unfoldable pub require : Bool → ContainerError → Result Unit
require supported error = if supported then success tt else failure error

unfoldable pub assert_signature_supported : Bytes → Result Unit
unfolding require text_eq
assert_signature_supported oid =
    require (text_eq oid oid_ed25519 || text_eq oid oid_secp256k1 || text_eq oid oid_secp256r1)
      unsupported_signature_algorithm

unfoldable pub oid_of_type : KeyPairType → Result Bytes
oid_of_type ecdsasecp256k1 = success oid_secp256k1
oid_of_type ed25519 = success oid_ed25519
oid_of_type ecdsasecp256r1 = success oid_secp256r1
oid_of_type _ = failure unsupported_key_type

module _ (crypto : Crypto) where
  open crypto use {
    GenericAccount, public_key_with_type, has_private_key, keypair_type, encrypt, decrypt, sign,
    verify, from_public_key, aes_encrypt, aes_decrypt, sha3_256, compress_to_vec_zlib,
    decompress_to_vec_zlib, Blob, der_encode, der_decode, oid_aes_256_cbc, oid_sha3_256,
  }

  pub record Encryption : Type 0 where
    pub principals : List GenericAccount
    pub material : CipherMaterial

  unfoldable pub account_from_public_key : Bytes → Result GenericAccount
  account_from_public_key public_key_and_type =
      ok_or account_error (from_public_key public_key_and_type)

  unfoldable pub assert_cipher_supported : Bytes → Result Unit
  unfolding require text_eq
  assert_cipher_supported oid = require (text_eq oid oid_aes_256_cbc) unsupported_cipher_algorithm

  unfoldable pub assert_digest_supported : Bytes → Result Unit
  unfolding require text_eq
  assert_digest_supported oid = require (text_eq oid oid_sha3_256) unsupported_digest_algorithm

  unfoldable pub decompress : Bytes → Result Bytes
  decompress compressed = ok_or decompression_failed (decompress_to_vec_zlib compressed)

  -- The loop of `seal_body` over the principals.
  unfoldable pub wrap_keys : Bytes → List GenericAccount → Result (List KeyStore)
  wrap_keys key [] = success []
  wrap_keys key (principal ∷ principals) = do
    wrapped_key ← ok_or crypto_error (encrypt principal key)
    keys ← wrap_keys key principals
    success (
        record {
          public_key = public_key_with_type principal;
          encrypted_symmetric_key = wrapped_key;
        }
        ∷ keys)

  unfoldable pub seal_body : Bytes → Encryption → Result ContainerBox
  unfolding get_from wrap_keys
  seal_body compressed encryption = do
    iv_and_ciphertext ←
        ok_or crypto_error (aes_encrypt encryption.material.key encryption.material.iv compressed)
    ciphertext ← ok_or crypto_error (get_from aes_iv_len iv_and_ciphertext)
    keys ← wrap_keys encryption.material.key encryption.principals
    success (
        encrypted (record {
          keys = keys;
          encryption_algorithm = oid_aes_256_cbc;
          initialization_vector = encryption.material.iv;
          encrypted_value = ciphertext;
        }))

  unfoldable pub sign_compressed : Bytes → GenericAccount → Result SignerInfo
  unfolding oid_of_type
  sign_compressed compressed signer =
      if not (has_private_key signer) then failure signer_requires_private_key else (do
        signature ← ok_or account_error (sign signer (sha3_256 compressed))
        signature_algorithm ← oid_of_type (keypair_type signer)
        success (record {
          version = pos signer_version;
          sid = public_key_with_type signer;
          digest_algorithm = oid_sha3_256;
          signature_algorithm = signature_algorithm;
          signature = signature;
        }))

  -- `encode`, of the compressed bytes that it computes first.
  unfoldable pub box_of : Bytes → Option Encryption → Result ContainerBox
  box_of compressed none = success (plaintext compressed)
  box_of compressed (some encryption) = seal_body compressed encryption

  unfoldable pub signer_info_of : Bytes → Option GenericAccount → Result (Option SignerInfo)
  signer_info_of compressed none = success none
  signer_info_of compressed (some account) = do
    info ← sign_compressed compressed account
    success (some info)

  unfoldable pub encode : Bytes → Option Encryption → Option GenericAccount → Result Blob
  encode payload encryption signer = do
    container ← box_of (compress_to_vec_zlib payload) encryption
    signer_info ← signer_info_of (compress_to_vec_zlib payload) signer
    ok_or asn1_error (
        der_encode (record {
          version = pos container_version;
          container = container;
          signer_info = signer_info;
        }))
