-- ===== src/Container/Codec/Signed.antt =====
-- Signatures and shapes of what `encode` of codec.rs (keetanetwork-anchor/src/encrypted_container)
-- writes.
use anchor_rs.Prelude.{
  Bool, true, not, Option, none, some, is_some, ◌≡◌, refl, sym, ap, text_eq, text_eq_refl, inl, inr,
  branch,
}
use anchor_rs.Prelude.Outcomes.{success, ok_or, ok_or-success, bind-success, success_injective}
use anchor_rs.Container.{
  Bytes, KeyPairType, ecdsasecp256k1, ed25519, ecdsasecp256r1, network, token, storage, multisig,
  account_error, crypto_error, ContainerBox, SignerInfo, Crypto,
}
use anchor_rs.Container.Codec.{
  aes_iv_len, get_from, Encryption, box_of, wrap_keys, seal_body, sign_compressed, signer_info_of,
  encode, ContainerBody, plaintext_body, encrypted_body, BareContainer, is_encrypted,
  is_encrypted_body, oid_of_type, require, assert_signature_supported, assert_digest_supported,
  assert_cipher_supported, account_from_public_key,
}
use anchor_rs.Container.Codec.Opening.{body_of, parse, verify_info}
use anchor_rs.Container.Codec.Laws.{Lawful, encode-success}
use anchor_rs.Container.Codec.Sealed.{parse-encoded}

oid_of_type-supported :
    (type : KeyPairType) (oid : Bytes)
    → oid_of_type type ≡ success oid
    → assert_signature_supported oid ≡ success tt
unfolding oid_of_type assert_signature_supported require text_eq
oid_of_type-supported ecdsasecp256k1 oid h = rw (← success_injective h) refl
oid_of_type-supported ed25519 oid h = rw (← success_injective h) refl
oid_of_type-supported ecdsasecp256r1 oid h = rw (← success_injective h) refl
oid_of_type-supported network oid h = cc
oid_of_type-supported token oid h = cc
oid_of_type-supported storage oid h = cc
oid_of_type-supported multisig oid h = cc

module _ (crypto : Crypto) where
  open crypto use {
    GenericAccount, public_key_with_type, sha3_256, sign, aes_encrypt, Blob, has_private_key,
    keypair_type,
  }

  -- The body that a box is parsed as.
  record Shape (sealed : Bool) (box : ContainerBox) : Type 0 where
    body : ContainerBody
    parsed : body_of crypto box ≡ success body
    shaped : is_encrypted_body body ≡ sealed

  box_of-Shape :
      (compressed : Bytes) (encryption : Option (Encryption crypto)) (box : ContainerBox)
      → box_of crypto compressed encryption ≡ success box
      → Shape (is_some encryption) box
  unfolding box_of seal_body body_of is_encrypted_body assert_cipher_supported require
  box_of-Shape compressed none box h = record {
    body = plaintext_body compressed;
    parsed = rw (← success_injective h) refl;
    shaped = refl;
  }
  box_of-Shape compressed (some encryption) box h =
      let (output, o, h1) = bind-success (ok_or crypto_error (aes_encrypt _ _ compressed)) h in
      let (ciphertext, c, h2) = bind-success (ok_or crypto_error (get_from aes_iv_len output)) h1 in
      let (stores, s, h3) = bind-success (wrap_keys crypto _ encryption.principals) h2 in
      record {
        body =
            encrypted_body (record {
              key_stores = stores;
              iv = encryption.material.iv;
              ciphertext = ciphertext;
            });
        parsed = rw (← success_injective h3, text_eq_refl crypto.oid_aes_256_cbc) refl;
        shaped = refl;
      }

  sign_compressed-success :
      (compressed : Bytes) (signer : GenericAccount) (info : SignerInfo)
      → sign_compressed crypto compressed signer ≡ success info
      → (signature : Bytes) × (sign signer (sha3_256 compressed) ≡ some signature)
        × (info.signature ≡ signature)
        × (info.sid ≡ public_key_with_type signer)
        × (info.digest_algorithm ≡ crypto.oid_sha3_256)
        × (assert_signature_supported info.signature_algorithm ≡ success tt)
  unfolding sign_compressed
  sign_compressed-success compressed signer info h =
      elim (branch (not (has_private_key signer)) h) [
        | inl (_, f) ↦ cc
        | inr (_, h1) ↦
            let (signature, s, h2) =
              bind-success (ok_or account_error (sign signer (sha3_256 compressed))) h1 in
            let (oid, o, h3) = bind-success (oid_of_type (keypair_type signer)) h2 in
            let same = success_injective h3 in
            (
              signature,
              ok_or-success account_error _ signature s,
              rw (← same) refl,
              rw (← same) refl,
              rw (← same) refl,
              rw (← same) (oid_of_type-supported (keypair_type signer) oid o),
            )
      ]

  -- A form of the payload, sealed or not, that carries the account's signature: the account that the
  -- carried key names has the signer's key, and verifies the signature over the hash of the compressed
  -- payload.
  pub record SignedBlob (payload : Bytes) (sealed : Bool) (signer : GenericAccount) (blob : Blob)
      : Type 0 where
    pub bare : BareContainer
    pub info : SignerInfo
    pub parsed : parse crypto blob ≡ success bare
    pub shaped : is_encrypted bare ≡ sealed
    pub carried : bare.signer_info ≡ some info
    pub public : GenericAccount
    pub names : crypto.from_public_key info.sid ≡ some public
    pub whose : public_key_with_type public ≡ public_key_with_type signer
    pub authentic :
        crypto.verify public (sha3_256 (crypto.compress_to_vec_zlib payload)) info.signature ≡ true
    pub verified : verify_info crypto info (crypto.compress_to_vec_zlib payload) ≡ success true

module _ (crypto : Crypto) (lawful : Lawful crypto) where
  open crypto use {GenericAccount, public_key_with_type, compress_to_vec_zlib, Blob}

  sign_compressed-verifies :
      (compressed : Bytes) (signer : GenericAccount) (info : SignerInfo)
      → sign_compressed crypto compressed signer ≡ success info
      → (public : GenericAccount) × (crypto.from_public_key info.sid ≡ some public)
        × (public_key_with_type public ≡ public_key_with_type signer)
        × (crypto.verify public (crypto.sha3_256 compressed) info.signature ≡ true)
        × (verify_info crypto info compressed ≡ success true)
  unfolding verify_info assert_digest_supported require account_from_public_key
  sign_compressed-verifies compressed signer info h =
      let (signature, s, same, sid, digest, supported) =
        sign_compressed-success crypto compressed signer info h in
      let (public, p) = lawful.reads_public_key signer in
      let key = lawful.keeps_public_key _ public p in
      let authentic = lawful.verifies signer public _ signature s key in
      (
        public,
        rw sid p,
        key,
        rw same authentic,
        rw (digest, text_eq_refl crypto.oid_sha3_256, supported, sid, p, same)
            (ap success authentic),
      )

  -- An encoding parses, and is sealed exactly when it was given an encryption.
  pub parse-encode :
      (payload : Bytes) (encryption : Option (Encryption crypto)) (signer : Option GenericAccount)
      (blob : Blob)
      → encode crypto payload encryption signer ≡ success blob
      → (bare : BareContainer) × (parse crypto blob ≡ success bare)
        × (is_encrypted bare ≡ is_some encryption)
  unfolding is_encrypted
  parse-encode payload encryption signer blob h =
      let (box, info, b, i, d) = encode-success crypto payload encryption signer blob h in
      let shape = box_of-Shape crypto _ encryption box b in
      (
        record { body = shape.body; signer_info = info },
        parse-encoded crypto lawful box info blob shape.body d shape.parsed,
        shape.shaped,
      )

  -- An encoding with a signer, sealed or not, parses to a form that carries a signature: the account
  -- that its key names has the signer's key and verifies it over the hash of the compressed payload, and
  -- `verify` of the form accepts it. The DER codec decodes what it encoded, an account is read from its
  -- public key, and verifies what was signed under it.
  pub encode-SignedBlob :
      (payload : Bytes) (encryption : Option (Encryption crypto)) (signer : GenericAccount)
      (blob : Blob)
      → encode crypto payload encryption (some signer) ≡ success blob
      → SignedBlob crypto payload (is_some encryption) signer blob
  unfolding is_encrypted signer_info_of
  encode-SignedBlob payload encryption signer blob h =
      let (box, carried, b, i, d) = encode-success crypto payload encryption (some signer) blob h in
      let shape = box_of-Shape crypto _ encryption box b in
      let (info, s, i1) = bind-success (sign_compressed crypto _ signer) i in
      let (public, names, whose, authentic, verified) = sign_compressed-verifies _ signer info s in
      record {
        bare = record { body = shape.body; signer_info = carried };
        info = info;
        parsed = parse-encoded crypto lawful box carried blob shape.body d shape.parsed;
        shaped = shape.shaped;
        carried = sym (success_injective i1);
        public = public;
        names = names;
        whose = whose;
        authentic = authentic;
        verified = verified;
      }
