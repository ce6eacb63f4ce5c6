-- ===== src/Container/Codec/Opening.antt =====
-- codec.rs of keetanetwork-anchor/src/encrypted_container: parsing a transport form, unwrapping its
-- key, decoding its body and checking its signature.
use anchor_rs.Prelude.{
  Bool, Option, none, some, List, [], ◌∷◌, ◌++◌, is_empty, text_eq, ◌==◌, if◌then◌else◌,
}
use anchor_rs.Prelude.Outcomes.{success, failure, ◌>>=◌, ok_or}
use anchor_rs.Container.{
  Bytes, unsupported_version, no_keys_provided, no_matching_key, decryption_failed, asn1_error,
  KeyStore, ContainerBox, plaintext, encrypted, SignerInfo, ContainerPackage, Crypto, Result,
}
use anchor_rs.Container.Codec.{
  container_version, to_u64, require, assert_cipher_supported, assert_digest_supported,
  assert_signature_supported, account_from_public_key, decompress, EncryptedBody, ContainerBody,
  plaintext_body, encrypted_body, BareContainer, DecodedBody,
}

module _ (crypto : Crypto) where
  open crypto use {
    GenericAccount, public_key_with_type, decrypt, verify, aes_decrypt, sha3_256, Blob, der_decode,
  }

  -- The body of a package whose version is known.
  unfoldable pub body_of : ContainerBox → Result ContainerBody
  body_of (plaintext plain_value) = success (plaintext_body plain_value)
  body_of (encrypted box) = do
    _ ← assert_cipher_supported crypto box.encryption_algorithm
    success (
        encrypted_body (record {
          key_stores = box.keys;
          iv = box.initialization_vector;
          ciphertext = box.encrypted_value;
        }))

  unfoldable pub parse_package : ContainerPackage → Result BareContainer
  parse_package pkg = do
    _ ← require (to_u64 pkg.version == container_version) (unsupported_version (to_u64 pkg.version))
    body ← body_of pkg.container
    success (record { body = body; signer_info = pkg.signer_info })

  unfoldable pub parse : Blob → Result BareContainer
  parse encoded = do pkg ← ok_or asn1_error (der_decode encoded); parse_package pkg

  abbrev pub or_else : Option Bytes → Option Bytes → Option Bytes
  or_else (some key) rest = some key
  or_else none rest = rest

  -- The inner loop of `unwrap_symmetric_key`: the first principal with the store's key that unwraps.
  unfoldable pub unwrap_store : KeyStore → List GenericAccount → Option Bytes
  unwrap_store store [] = none
  unwrap_store store (principal ∷ principals) =
      if text_eq (public_key_with_type principal) store.public_key
      then or_else (decrypt principal store.encrypted_symmetric_key) (unwrap_store store principals)
      else unwrap_store store principals

  abbrev pub first_key : Option Bytes → Result Bytes → Result Bytes
  first_key (some key) rest = success key
  first_key none rest = rest

  unfoldable pub unwrap_symmetric_key : List KeyStore → List GenericAccount → Result Bytes
  unwrap_symmetric_key [] principals = failure no_matching_key
  unwrap_symmetric_key (store ∷ stores) principals =
      first_key (unwrap_store store principals) (unwrap_symmetric_key stores principals)

  unfoldable pub decrypt_body : EncryptedBody → List GenericAccount → Result Bytes
  decrypt_body body principals = if is_empty principals then failure no_keys_provided else (do
    cipher_key ← unwrap_symmetric_key body.key_stores principals
    ok_or decryption_failed (aes_decrypt cipher_key (body.iv ++ body.ciphertext)))

  unfoldable pub compressed_of : ContainerBody → List GenericAccount → Result Bytes
  compressed_of (plaintext_body compressed) principals = success compressed
  compressed_of (encrypted_body body) principals = decrypt_body body principals

  unfoldable pub decode_body : ContainerBody → List GenericAccount → Result DecodedBody
  decode_body body principals = do
    compressed ← compressed_of body principals
    payload ← decompress crypto compressed
    success (record { compressed = compressed; plaintext = payload })

  -- `verify`
  unfoldable pub verify_info : SignerInfo → Bytes → Result Bool
  verify_info signer_info payload = do
    _ ← assert_digest_supported crypto signer_info.digest_algorithm
    _ ← assert_signature_supported signer_info.signature_algorithm
    signer ← account_from_public_key crypto signer_info.sid
    success (verify signer (sha3_256 payload) signer_info.signature)
