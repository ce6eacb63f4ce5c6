-- ===== src/Container/State/Access/Granting.antt =====
-- Granting, revoking and signing on an `EncryptedContainer`
-- (keetanetwork-anchor/src/encrypted_container/mod.rs), and the forms that it gives out next.
use anchor_rs.Prelude.{
  Bool, true, false, Option, none, some, is_some, List, [], ◌∷◌, any, map, any-map, text_eq,
  text_eq_sound, text_eq_refl, ◌≡◌, refl, sym, ◌∙◌, ap, inl, inr, or_false_cases, Bool-cases, arith,
}
use anchor_rs.Prelude.Outcomes.{success, failure, ok_or, bind-success, success_injective}
use anchor_rs.Container.{
  Bytes, no_encoded_data_available, no_matching_key, crypto_error, KeyStore, ContainerBox,
  SignerInfo, Crypto,
}
use anchor_rs.Container.Codec.{
  aes_iv_len, get_from, wrap_keys, seal_body, box_of, Encryption, encrypted_body, EncryptedBody,
  assert_cipher_supported, require,
}
use anchor_rs.Container.Codec.Opening.{body_of, parse, unwrap_store, unwrap_symmetric_key}
use anchor_rs.Container.Codec.Sealed.{parse-encoded}
use anchor_rs.Container.Codec.Laws.{Lawful, encode-success}
use anchor_rs.Container.Merge.{has_key}
use anchor_rs.Container.State.{Seeds, EncryptedContainer, compute_plaintext, decode_from_encoded}
use anchor_rs.Container.State.Access.{
  seal_payload, encode_encrypted, compute_encoded, get_encoded, assert_access_management_allowed,
  retain_others, revoke_access, ensure_signer_info_parsed, verify_signature,
}
use anchor_rs.Container.State.Invariant.{compute_plaintext-keeps}
use anchor_rs.Container.State.Encoded.{seal_payload-success}

module _ (crypto : Crypto) where
  open crypto use {GenericAccount, public_key_with_type, Blob}

  retain_others-none :
      (key : Bytes) (principals : List GenericAccount)
      → any (has_key crypto key) (retain_others crypto key principals) ≡ false
  unfolding retain_others
  retain_others-none key [] = refl
  retain_others-none key (principal ∷ principals) =
      elim (Bool-cases (text_eq (public_key_with_type principal) key)) [
        | inl e ↦ rw e (retain_others-none key principals)
        | inr e ↦ rw (e, e) (retain_others-none key principals)
      ]

  -- Everyone with another key is kept.
  retain_others-any :
      (key other : Bytes) (principals : List GenericAccount)
      → text_eq key other ≡ false
      → any (has_key crypto other) (retain_others crypto key principals)
        ≡ any (has_key crypto other) principals
  unfolding retain_others
  retain_others-any key other [] n = refl
  retain_others-any key other (principal ∷ principals) n =
      elim (Bool-cases (text_eq (public_key_with_type principal) key)) [
        | inl e ↦
            rw (e, text_eq_sound (public_key_with_type principal) key e, n)
              (retain_others-any key other principals n)
        | inr e ↦ rw (e, retain_others-any key other principals n) refl
      ]

  revoke_access-drops :
      (key : Bytes) (s t : EncryptedContainer crypto)
      → revoke_access crypto key s ≡ (t, success tt)
      → (s.encrypted ≡ true)
        × (t.encrypted ≡ true)
        × (t.encoded ≡ none)
        × (is_some t.plaintext ≡ true)
        × (t.principals ≡ retain_others crypto key (compute_plaintext crypto s).0.principals)
  unfolding revoke_access assert_access_management_allowed
  revoke_access-drops key s t h = ground (arith, compute_plaintext-keeps crypto s)

  -- A successful revocation, which only a sealed container allows, drops the encoded form, leaves the
  -- plaintext at hand and no principal with the key, and keeps every principal with another key.
  pub revoke_access-effect :
      (key other : Bytes) (s t : EncryptedContainer crypto)
      → text_eq key other ≡ false
      → revoke_access crypto key s ≡ (t, success tt)
      → (s.encrypted ≡ true)
        × (t.encrypted ≡ true)
        × (t.encoded ≡ none)
        × (is_some t.plaintext ≡ true)
        × (any (has_key crypto key) t.principals ≡ false)
        × (any (has_key crypto other) t.principals
            ≡ any (has_key crypto other) (compute_plaintext crypto s).0.principals)
  revoke_access-effect key other s t n h =
      let before = (compute_plaintext crypto s).0.principals in
      let (a, b, c, d, e) = revoke_access-drops key s t h in
      (
        a,
        b,
        c,
        d,
        rw e (retain_others-none key before),
        rw e (retain_others-any key other before n),
      )

  -- The stores of a sealed form are named after the principals, in their order.
  pub wrap_keys-names :
      (key : Bytes) (principals : List GenericAccount) (stores : List KeyStore)
      → wrap_keys crypto key principals ≡ success stores
      → map (λ store. store.public_key) stores ≡ map public_key_with_type principals
  unfolding wrap_keys
  wrap_keys-names key [] stores h = rw (← success_injective h) refl
  wrap_keys-names key (principal ∷ principals) stores h =
      let (wrapped, w, h1) = bind-success (ok_or crypto_error (crypto.encrypt principal key)) h in
      let (keys, k, h2) = bind-success (wrap_keys crypto key principals) h1 in
      rw (← success_injective h2, wrap_keys-names key principals keys k) refl

  seal_body-names :
      (compressed : Bytes) (encryption : Encryption crypto) (box : ContainerBox)
      → seal_body crypto compressed encryption ≡ success box
      → (body : EncryptedBody) × (body_of crypto box ≡ success (encrypted_body body))
        × (map (λ store. store.public_key) body.key_stores
            ≡ map public_key_with_type encryption.principals)
  unfolding seal_body body_of assert_cipher_supported require
  seal_body-names compressed encryption box h =
      let (output, o, h1) =
        bind-success (ok_or crypto_error (crypto.aes_encrypt _ _ compressed)) h in
      let (ciphertext, c, h2) = bind-success (ok_or crypto_error (get_from aes_iv_len output)) h1 in
      let (stores, s, h3) = bind-success (wrap_keys crypto _ encryption.principals) h2 in
      (
        record { key_stores = stores; iv = encryption.material.iv; ciphertext = ciphertext },
        rw (← success_injective h3, text_eq_refl crypto.oid_aes_256_cbc) refl,
        wrap_keys-names _ encryption.principals stores s,
      )

  unwrap_store-stranger :
      (key : Bytes) (store : KeyStore) (a : GenericAccount)
      → public_key_with_type a ≡ key
      → text_eq store.public_key key ≡ false
      → unwrap_store crypto store (a ∷ []) ≡ none
  unfolding unwrap_store
  unwrap_store-stranger key store a k n =
      elim (Bool-cases (text_eq (public_key_with_type a) store.public_key)) [
        | inl e ↦
            let same : store.public_key ≡ key = sym (text_eq_sound _ _ e) ∙ k in
            let self : text_eq store.public_key key ≡ true = rw same (text_eq_refl key) in cc
        | inr e ↦ rw e refl
      ]

  unwrap_symmetric_key-stranger :
      (key : Bytes) (stores : List KeyStore) (a : GenericAccount)
      → public_key_with_type a ≡ key
      → any (λ store. text_eq store.public_key key) stores ≡ false
      → unwrap_symmetric_key crypto stores (a ∷ []) ≡ failure no_matching_key
  unfolding unwrap_symmetric_key
  unwrap_symmetric_key-stranger key [] a k n = refl
  unwrap_symmetric_key-stranger key (store ∷ stores) a k n =
      let (here, later) = or_false_cases n in
      rw (unwrap_store-stranger key store a k here)
        (unwrap_symmetric_key-stranger key stores a k later)

  pub get_encoded-sealing :
      (seeds : Seeds) (s : EncryptedContainer crypto) (blob : Blob)
      → s.encrypted ≡ true
      → s.encoded ≡ none
      → (get_encoded crypto seeds s).1 ≡ success blob
      → seal_payload crypto seeds s.signer s.principals s.plaintext ≡ success blob
  unfolding get_encoded compute_encoded encode_encrypted
  get_encoded-sealing seeds s blob e n h = ground arith

  pub any-names :
      (p : Bytes → Bool) (stores : List KeyStore) (principals : List GenericAccount)
      → map (λ store. store.public_key) stores ≡ map public_key_with_type principals
      → any (λ store. p store.public_key) stores ≡ any (λ a. p (public_key_with_type a)) principals
  any-names p stores principals e =
      sym (any-map p (λ store. store.public_key) stores)
      ∙ ap (any p) e
      ∙ any-map p public_key_with_type principals

module _ (crypto : Crypto) (lawful : Lawful crypto) where
  open crypto use {GenericAccount, public_key_with_type, Blob}

  -- The form that a sealed container without one gives out has one store for each principal, in the
  -- order of the principals.
  pub get_encoded-names :
      (seeds : Seeds) (s : EncryptedContainer crypto) (blob : Blob)
      → s.encrypted ≡ true
      → s.encoded ≡ none
      → (get_encoded crypto seeds s).1 ≡ success blob
      → (body : EncryptedBody) × (info : Option SignerInfo) × (parse crypto blob
          ≡ success (record { body = encrypted_body body; signer_info = info }))
        × (map (λ store. store.public_key) body.key_stores ≡ map public_key_with_type s.principals)
  unfolding box_of
  get_encoded-names seeds s blob e n h =
      let (payload, material, _, _, encoded) =
        seal_payload-success crypto seeds s.signer s.principals s.plaintext blob
          (get_encoded-sealing crypto seeds s blob e n h) in
      let (box, info, b, _, d) = encode-success crypto payload _ s.signer blob encoded in
      let (body, f, names) = seal_body-names crypto _ _ box b in
      (body, info, parse-encoded crypto lawful box info blob (encrypted_body body) d f, names)

  -- After a revocation the next form given out has a store for each remaining principal, in their
  -- order, and an account with the revoked key cannot unwrap the key of that form. The DER codec decodes
  -- what it encoded.
  pub revoke_access-unwraps_none :
      (key : Bytes) (s t : EncryptedContainer crypto) (seeds : Seeds) (blob : Blob)
      (a : GenericAccount)
      → revoke_access crypto key s ≡ (t, success tt)
      → (get_encoded crypto seeds t).1 ≡ success blob
      → public_key_with_type a ≡ key
      → (body : EncryptedBody) × (info : Option SignerInfo) × (parse crypto blob
          ≡ success (record { body = encrypted_body body; signer_info = info }))
        × (map (λ store. store.public_key) body.key_stores ≡ map public_key_with_type t.principals)
        × (unwrap_symmetric_key crypto body.key_stores (a ∷ []) ≡ failure no_matching_key)
  revoke_access-unwraps_none key s t seeds blob a r h k =
      let (_, sealed, gone, _, left) = revoke_access-drops crypto key s t r in
      let (body, info, p, names) = get_encoded-names seeds t blob sealed gone h in
      let before = (compute_plaintext crypto s).0.principals in
      let absent : any (λ store. text_eq store.public_key key) body.key_stores ≡ false =
        any-names crypto (λ n. text_eq n key) body.key_stores t.principals names
        ∙ ap (any (has_key crypto key)) left
        ∙ retain_others-none crypto key before in
      (body, info, p, names, unwrap_symmetric_key-stranger crypto key body.key_stores a k absent)

module _ (crypto : Crypto) where
  open crypto use {GenericAccount, public_key_with_type, Blob}

  -- Once a signature has been read, a change that drops the encoded form (new plaintext, a grant, a
  -- revocation) makes the check of the signature fail for want of an encoded form, although the
  -- container could compute one.
  pub verify_signature-stale :
      (seeds : Seeds) (info : SignerInfo) (s : EncryptedContainer crypto)
      → s.parsed_signer_info ≡ some info
      → s.encoded ≡ none
      → verify_signature crypto seeds s ≡ (s, failure no_encoded_data_available)
  unfolding verify_signature ensure_signer_info_parsed decode_from_encoded
  verify_signature-stale seeds info s h n = ground arith
