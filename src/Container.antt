-- ===== src/Container.antt =====
-- keetanetwork-anchor/src/encrypted_container: the types of a sealed, optionally signed container.
-- Accounts, ciphers, zlib and the DER form of a package are code of other crates: fields of `Crypto`.
pub mod Codec
pub mod Merge
pub mod State
mod Toy
mod Tests
use anchor_rs.Prelude.{ℕ, Bool, true, false, ℤ, Option, none, some, List, Text}
use anchor_rs.Prelude.Outcomes.{Outcome}

abbrev pub Bytes : Type 0
Bytes = List ℕ

-- `KeyPairType`: the three kinds that sign a container, and the identifier kinds.
pub data KeyPairType : Type 0 where
  ecdsasecp256k1 ed25519 ecdsasecp256r1 network token storage multisig : KeyPairType

pub data ContainerError : Type 0 where
  unsupported_version : (version : ℕ) → ContainerError
  unsupported_cipher_algorithm unsupported_digest_algorithm unsupported_signature_algorithm
        unsupported_key_type no_keys_provided no_matching_key decryption_failed decompression_failed
        signer_requires_private_key not_signed no_plaintext_available no_encoded_data_available
        plaintext_disabled encryption_required invalid_principals access_management_not_allowed
        account_error crypto_error asn1_error :
      ContainerError

pub record KeyStore : Type 0 where
  pub public_key : Bytes
  pub encrypted_symmetric_key : Bytes

pub record EncryptedBox : Type 0 where
  pub keys : List KeyStore
  pub encryption_algorithm : Bytes
  pub initialization_vector : Bytes
  pub encrypted_value : Bytes

pub data ContainerBox : Type 0 where
  plaintext : (plain_value : Bytes) → ContainerBox
  encrypted : EncryptedBox → ContainerBox

pub record SignerInfo : Type 0 where
  pub version : ℤ
  pub sid : Bytes
  pub digest_algorithm : Bytes
  pub signature_algorithm : Bytes
  pub signature : Bytes

pub record ContainerPackage : Type 0 where
  pub version : ℤ
  pub container : ContainerBox
  pub signer_info : Option SignerInfo

-- The code of other crates. `Blob` is the DER text of a package, which the source never looks into;
-- `none` is an error of that code. The two identifiers stand in a generated file.
pub record Crypto : Type 1 where
  pub GenericAccount : Type 0
  pub public_key_with_type : GenericAccount → Bytes
  pub has_private_key : GenericAccount → Bool
  pub keypair_type : GenericAccount → KeyPairType
  pub encrypt : GenericAccount → Bytes → Option Bytes
  pub decrypt : GenericAccount → Bytes → Option Bytes
  pub sign : GenericAccount → Bytes → Option Bytes
  pub verify : GenericAccount → Bytes → Bytes → Bool
  pub from_public_key : Bytes → Option GenericAccount
  pub aes_encrypt : (key iv message : Bytes) → Option Bytes
  pub aes_decrypt : (key iv_and_ciphertext : Bytes) → Option Bytes
  pub sha3_256 : Bytes → Bytes
  pub compress_to_vec_zlib : Bytes → Bytes
  pub decompress_to_vec_zlib : Bytes → Option Bytes
  pub Blob : Type 0
  pub der_encode : ContainerPackage → Option Blob
  pub der_decode : Blob → Option ContainerPackage
  pub oid_aes_256_cbc : Bytes
  pub oid_sha3_256 : Bytes

abbrev pub Result : Type 0 → Type 0
Result A = Outcome ContainerError A
