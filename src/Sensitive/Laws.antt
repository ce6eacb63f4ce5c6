-- ===== src/Sensitive/Laws.antt =====
-- Building, opening and proving attributes of keetanetwork-anchor/src/sensitive_attributes.
use mathlib.Core.List.{append_cancel_left, tail-eq_of_cons-eq}
use anchor_rs.Prelude.{
  ℕ, ◌^◌, ◌<◌, ◌==◌, ltb, ltb→lt, true, false, ℤ, pos, negsuc, some, some_injective, [], ◌∷◌, ◌++◌,
  length, text_eq, text_eq_refl, text_eq_sound, ◌≡◌, ◌≢◌, ◌⊎◌, inl, inr, refl, sym, ◌∙◌, ap, subst,
  Bool-cases, arith,
}
use anchor_rs.Prelude.Outcomes.{
  success, failure, ok_or, ok_or-success, bind-success, success_injective,
}
use anchor_rs.Sensitive.{
  Bytes, SensitiveAttribute, Primitives, Draws, SensitiveAttributeBuilder, SensitiveAttributeProof,
  create_hash_input, try_into_u64, assert_valid_version, assert_encrypts, build,
  setup_cipher_for_decryption, decrypt_attribute, to_proof, validate_proof, missing_value,
  crypto_error, account_error, invalid_version, unsupported_version,
}

not_equal : (a b : ℕ) → a ≢ b → (a == b) ≡ false
not_equal a b h = ground arith

tails_equal : (s t a b : Bytes) → length s ≡ length t → s ++ a ≡ t ++ b → a ≡ b
tails_equal [] [] a b n h = h
tails_equal [] (y ∷ t) a b n h = absurd (omega (arith, n))
tails_equal (x ∷ s) [] a b n h = absurd (omega (arith, n))
tails_equal (x ∷ s) (y ∷ t) a b n h = tails_equal s t a b (omega (arith, n)) (tail-eq_of_cons-eq h)

assert_valid_version-refused :
    (version : ℤ)
    → version ≢ pos 0
    → (assert_valid_version version ≡ failure invalid_version)
      ⊎ ((n : ℕ) × (version ≡ pos n)
          × (n < 2 ^ 64)
          × (assert_valid_version version ≡ failure (unsupported_version n)))
unfolding assert_valid_version try_into_u64
assert_valid_version-refused (negsuc n) h = inl refl
assert_valid_version-refused (pos n) h = elim (Bool-cases (ltb n (2 ^ 64))) [
  | inr e ↦ inl (rw e refl)
  | inl e ↦
      let nonzero : (n == 0) ≡ false = not_equal n 0 (λ z. h (ap pos z)) in
      inr (n, refl, ltb→lt n (2 ^ 64) e, rw (e, nonzero) refl)
]

-- The documented behaviour of the key pairs, AES-GCM and base64.
pub record Lawful (prim : Primitives) : Type 0 where
  pub unwraps :
      (keypair : prim.KeyPair) (key wrapped : Bytes)
      → prim.encrypt keypair key ≡ some wrapped
      → prim.decrypt keypair wrapped ≡ some key
  pub deciphers :
      (cipher : prim.Aes256Gcm) (nonce message output : Bytes)
      → prim.cipher_encrypt cipher nonce message ≡ some output
      → prim.cipher_decrypt cipher nonce output ≡ some message
  pub decodes : (bytes : Bytes) → prim.base64.decode (prim.base64.encode bytes) ≡ some bytes

module _ (prim : Primitives) where
  open prim use {
    KeyPair, supports_encryption, to_public_key, encrypt, decrypt, Aes256Gcm, cipher_new,
    cipher_encrypt, cipher_decrypt, sha3_256, base64,
  }

  -- What a build drew and computed.
  pub record Built (draws : Draws) (keypair : KeyPair) (value : Bytes)
      (attribute : SensitiveAttribute) : Type 0 where
    pub salt : Bytes
    pub symmetric_key : Bytes
    pub cipher : Aes256Gcm
    pub capable : supports_encryption keypair ≡ true
    pub version_zero : attribute.version ≡ pos 0
    pub nonce_kept : attribute.cipher.iv_or_nonce ≡ draws.nonce
    pub key_wrapped : encrypt keypair symmetric_key ≡ some attribute.cipher.key
    pub cipher_made : cipher_new symmetric_key ≡ some cipher
    pub value_sealed : cipher_encrypt cipher draws.nonce value ≡ some attribute.encrypted_value
    pub salt_sealed :
        cipher_encrypt cipher draws.nonce salt ≡ some attribute.hashed_value.encrypted_salt
    pub hashed :
        attribute.hashed_value.value
        ≡ sha3_256 (create_hash_input salt (to_public_key keypair) attribute.encrypted_value value)

  assert_encrypts-success :
      (keypair : KeyPair) {u : Unit}
      → assert_encrypts prim keypair ≡ success u
      → supports_encryption keypair ≡ true
  assert_encrypts-success keypair h = ground arith

  pub build-Built :
      (draws : Draws) (keypair : KeyPair) (builder : SensitiveAttributeBuilder)
      (attribute : SensitiveAttribute)
      → build prim draws keypair builder ≡ success attribute
      → (value : Bytes) × (builder.value ≡ some value) × Built draws keypair value attribute
  unfolding build
  build-Built draws keypair builder attribute h =
      let (value, v, h1) = bind-success (ok_or missing_value builder.value) h in
      let (_, g, h2) = bind-success (assert_encrypts prim keypair) h1 in
      let (salt, s, h3) = bind-success (ok_or crypto_error draws.salt) h2 in
      let (key, k, h4) = bind-success (ok_or crypto_error draws.symmetric_key) h3 in
      let (wrapped, w, h5) = bind-success (ok_or account_error (encrypt keypair key)) h4 in
      let (cipher, c, h6) = bind-success (ok_or crypto_error (cipher_new key)) h5 in
      let (sealed, e, h7) =
        bind-success (ok_or crypto_error (cipher_encrypt cipher draws.nonce value)) h6 in
      let (hidden, f, h8) =
        bind-success (ok_or crypto_error (cipher_encrypt cipher draws.nonce salt)) h7 in
      let same = success_injective h8 in
      (
        value,
        ok_or-success _ _ value v,
        subst (Built draws keypair value) same (record {
          salt = salt;
          symmetric_key = key;
          cipher = cipher;
          capable = assert_encrypts-success keypair g;
          version_zero = refl;
          nonce_kept = refl;
          key_wrapped = ok_or-success _ _ wrapped w;
          cipher_made = ok_or-success _ _ cipher c;
          value_sealed = ok_or-success _ _ sealed e;
          salt_sealed = ok_or-success _ _ hidden f;
          hashed = refl;
        }),
      )

module _ (prim : Primitives) (lawful : Lawful prim) where
  open prim use {KeyPair, base64}

  Built-setup :
      (draws : Draws) (keypair : KeyPair) (value : Bytes) (attribute : SensitiveAttribute)
      (b : Built prim draws keypair value attribute)
      → setup_cipher_for_decryption prim keypair attribute.cipher ≡ success (b.cipher, draws.nonce)
  unfolding setup_cipher_for_decryption
  Built-setup draws keypair value attribute b =
      rw (lawful.unwraps keypair b.symmetric_key _ b.key_wrapped, b.cipher_made, b.nonce_kept) refl

  Built-decrypt :
      (draws : Draws) (keypair : KeyPair) (value : Bytes) (attribute : SensitiveAttribute)
      → Built prim draws keypair value attribute
      → decrypt_attribute prim keypair attribute ≡ success value
  unfolding decrypt_attribute assert_valid_version try_into_u64
  Built-decrypt draws keypair value attribute b =
      rw
        (
          b.version_zero,
          b.capable,
          Built-setup draws keypair value attribute b,
          lawful.deciphers b.cipher draws.nonce value _ b.value_sealed,
        )
        refl

  -- What is built from a value decrypts to that value under the same key pair.
  pub decrypt_attribute-build :
      (draws : Draws) (keypair : KeyPair) (value : Bytes) (attribute : SensitiveAttribute)
      → build prim draws keypair (record { value = some value }) ≡ success attribute
      → decrypt_attribute prim keypair attribute ≡ success value
  decrypt_attribute-build draws keypair value attribute h =
      let (other, v, b) = build-Built prim draws keypair _ attribute h in
      Built-decrypt draws keypair other attribute b ∙ ap success (sym (some_injective v))

module _ (prim : Primitives) where
  open prim use {KeyPair, to_public_key, sha3_256, base64}

  accepted-hash :
      (keypair : KeyPair) (proof : SensitiveAttributeProof) (attribute : SensitiveAttribute)
      (value salt : Bytes)
      → base64.decode proof.value ≡ some value
      → base64.decode proof.salt ≡ some salt
      → validate_proof prim keypair proof attribute ≡ success true
      → sha3_256 (create_hash_input salt (to_public_key keypair) attribute.encrypted_value value)
        ≡ attribute.hashed_value.value
  unfolding validate_proof
  accepted-hash keypair proof attribute value salt v s h =
      text_eq_sound _ _ (success_injective (rw (v, s) at h))

  create_hash_input-values :
      (s t key sealed v w : Bytes)
      → length s ≡ length t
      → create_hash_input s key sealed v ≡ create_hash_input t key sealed w
      → v ≡ w
  unfolding create_hash_input
  create_hash_input-values s t key sealed v w n h =
      append_cancel_left sealed v w
        (append_cancel_left key (sealed ++ v) (sealed ++ w) (tails_equal s t _ _ n h))

  -- What the hash of an attribute covers.
  abbrev pub committed : KeyPair → SensitiveAttribute → (salt value : Bytes) → Bytes
  committed keypair attribute salt value =
      salt ++ (to_public_key keypair ++ (attribute.encrypted_value ++ value))

  -- Two proofs of one attribute that are both accepted, with salts of one length, prove the same value,
  -- or the two texts that they hash, each its salt, the public key, the encrypted value and its value, are
  -- different and have one SHA3-256 hash.
  pub validate_proof-binding :
      (keypair : KeyPair) (p q : SensitiveAttributeProof) (attribute : SensitiveAttribute)
      (v w s t : Bytes)
      → base64.decode p.value ≡ some v
      → base64.decode q.value ≡ some w
      → base64.decode p.salt ≡ some s
      → base64.decode q.salt ≡ some t
      → length s ≡ length t
      → validate_proof prim keypair p attribute ≡ success true
      → validate_proof prim keypair q attribute ≡ success true
      → (v ≡ w)
        ⊎ ((committed keypair attribute s v ≢ committed keypair attribute t w)
            × (sha3_256 (committed keypair attribute s v)
                ≡ sha3_256 (committed keypair attribute t w)))
  unfolding create_hash_input
  validate_proof-binding keypair p q attribute v w s t a b c d n g h =
      let sealed = attribute.encrypted_value in
      let key = to_public_key keypair in
      elim (Bool-cases (text_eq v w)) [
        | inl e ↦ inl (text_eq_sound v w e)
        | inr e ↦ inr (
          (λ same. differ v w e (create_hash_input-values s t key sealed v w n same)),
          accepted-hash keypair p attribute v s a c g
              ∙ sym (accepted-hash keypair q attribute w t b d h),
        )
      ]
    where
      differ : (v w : Bytes) → text_eq v w ≡ false → v ≢ w
      differ v w e same = let self : text_eq v w ≡ true = rw same (text_eq_refl w) in cc

  -- An attribute whose version is not 0 is refused before its key is touched: with the version if that
  -- is a u64, and otherwise as invalid.
  pub to_proof-version :
      (keypair : KeyPair) (attribute : SensitiveAttribute)
      → attribute.version ≢ pos 0
      → (to_proof prim keypair attribute ≡ failure invalid_version)
        ⊎ ((n : ℕ) × (attribute.version ≡ pos n)
            × (n < 2 ^ 64)
            × (to_proof prim keypair attribute ≡ failure (unsupported_version n)))
  unfolding to_proof decrypt_attribute
  to_proof-version keypair attribute h = elim (assert_valid_version-refused attribute.version h) [
    | inl e ↦ inl (rw e refl)
    | inr (n, v, b, e) ↦ inr (n, v, b, rw e refl)
  ]
