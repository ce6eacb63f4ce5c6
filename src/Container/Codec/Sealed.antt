-- ===== src/Container/Codec/Sealed.antt =====
-- Opening what `encode` of codec.rs (keetanetwork-anchor/src/encrypted_container) has sealed.
use anchor_rs.Prelude.{
  true, false, Option, none, some, List, [], ◌∷◌, ◌++◌, length, is_empty, ◌≡◌, refl, sym, ◌∙◌, ap,
  All, Any, text_eq, text_eq_refl, text_eq_sound, pos, inl, inr, ◌⊎◌, branch, Bool-cases,
  Option-cases,
}
use anchor_rs.Prelude.Outcomes.{success, ok_or, ok_or-success, bind-success}
use anchor_rs.Container.{Bytes, KeyStore, ContainerBox, encrypted, SignerInfo, Crypto, crypto_error}
use anchor_rs.Container.Codec.{
  container_version, aes_iv_len, get_from, wrap_keys, Encryption, seal_body, EncryptedBody,
  ContainerBody, encrypted_body, require, assert_cipher_supported, to_u64,
}
use anchor_rs.Container.Codec.Opening.{
  body_of, parse_package, parse, or_else, unwrap_store, unwrap_symmetric_key, decrypt_body,
}
use anchor_rs.Container.Codec.Laws.{
  Lawful, get_from-append, Wraps, HasOpener, CanOpen, wrap_keys-Wraps, wrap_keys-openers,
}

module _ (crypto : Crypto) (lawful : Lawful crypto) where
  open crypto use {
    GenericAccount, public_key_with_type, has_private_key, encrypt, decrypt, aes_encrypt,
    aes_decrypt, Blob, der_encode, compress_to_vec_zlib,
  }

  or_else_cases :
      (a b : Option Bytes) (k : Bytes) → or_else crypto a b ≡ some k → (a ≡ some k) ⊎ (b ≡ some k)
  or_else_cases none b k h = inr h
  or_else_cases (some a) b k h = inl h

  -- What a store yields is the key it was made of.
  decrypt-key :
      (key other : Bytes) (store : KeyStore) (b : GenericAccount)
      → Wraps crypto key store
      → text_eq (public_key_with_type b) store.public_key ≡ true
      → decrypt b store.encrypted_symmetric_key ≡ some other
      → other ≡ key
  decrypt-key key other store b w e d =
      lawful.unwraps_only w.account b key _ other w.wrapped (text_eq_sound _ _ e ∙ sym w.named) d

  unwrap_store-key :
      (key other : Bytes) (store : KeyStore) (openers : List GenericAccount)
      → Wraps crypto key store
      → unwrap_store crypto store openers ≡ some other
      → other ≡ key
  unfolding unwrap_store
  unwrap_store-key key other store [] w h = cc
  unwrap_store-key key other store (b ∷ openers) w h =
      elim (branch (text_eq (public_key_with_type b) store.public_key) h) [
        | inr (_, t) ↦ unwrap_store-key key other store openers w t
        | inl (e, t) ↦ elim (or_else_cases (decrypt b store.encrypted_symmetric_key) _ other t) [
          | inl d ↦ decrypt-key key other store b w e d
          | inr r ↦ unwrap_store-key key other store openers w r
        ]
      ]

  unwrap_store-opens :
      (key : Bytes) (store : KeyStore) (openers : List GenericAccount)
      → Wraps crypto key store
      → HasOpener crypto openers store.public_key
      → unwrap_store crypto store openers ≡ some key
  unfolding unwrap_store
  unwrap_store-opens key store [] w m = absurd m
  unwrap_store-opens key store (b ∷ openers) w (inl (e, p)) =
      rw
        (
          e,
          text_eq_refl store.public_key,
          lawful.unwraps w.account b key _ w.wrapped (e ∙ sym w.named) p,
        )
        refl
  unwrap_store-opens key store (b ∷ openers) w (inr m) =
      let rest = unwrap_store-opens key store openers w m in
      elim (Bool-cases (text_eq (public_key_with_type b) store.public_key)) [
        | inr e ↦ rw e rest
        | inl e ↦ elim (Option-cases (decrypt b store.encrypted_symmetric_key)) [
          | inl n ↦ rw (e, n) rest
          | inr (k, d) ↦ rw (e, d) (ap some (decrypt-key key k store b w e d))
        ]
      ]

  unwrap_symmetric_key-opens :
      (key : Bytes) (stores : List KeyStore) (openers : List GenericAccount)
      → All (Wraps crypto key) stores
      → Any (λ store. HasOpener crypto openers store.public_key) stores
      → unwrap_symmetric_key crypto stores openers ≡ success key
  unfolding unwrap_symmetric_key
  unwrap_symmetric_key-opens key [] openers ws m = absurd m
  unwrap_symmetric_key-opens key (store ∷ stores) openers (w, ws) (inl m) =
      rw (unwrap_store-opens key store openers w m) refl
  unwrap_symmetric_key-opens key (store ∷ stores) openers (w, ws) (inr m) =
      elim (Option-cases (unwrap_store crypto store openers)) [
        | inl n ↦ rw n (unwrap_symmetric_key-opens key stores openers ws m)
        | inr (k, d) ↦ rw d (ap success (unwrap_store-key key k store openers w d))
      ]

  -- The parts of a sealed box.
  pub record SealedBox (encryption : Encryption crypto) (compressed : Bytes) (box : ContainerBox)
      : Type 0 where
    pub stores : List KeyStore
    pub ciphertext : Bytes
    pub wrapped : wrap_keys crypto encryption.material.key encryption.principals ≡ success stores
    pub deciphered :
        aes_decrypt encryption.material.key (encryption.material.iv ++ ciphertext) ≡ some compressed
    pub boxed :
        box
        ≡ encrypted (record {
          keys = stores;
          encryption_algorithm = crypto.oid_aes_256_cbc;
          initialization_vector = encryption.material.iv;
          encrypted_value = ciphertext;
        })

  pub seal_body-success :
      (compressed : Bytes) (encryption : Encryption crypto) (box : ContainerBox)
      → length encryption.material.iv ≡ aes_iv_len
      → seal_body crypto compressed encryption ≡ success box
      → SealedBox encryption compressed box
  unfolding seal_body
  seal_body-success compressed encryption box n h =
      let (output, o, h1) = bind-success (ok_or crypto_error (aes_encrypt _ _ compressed)) h in
      let (ciphertext, c, h2) = bind-success (ok_or crypto_error (get_from aes_iv_len output)) h1 in
      let (stores, s, h3) = bind-success (wrap_keys crypto _ encryption.principals) h2 in
      let (rest, split, d) =
        lawful.deciphers _ _ compressed output (ok_or-success crypto_error _ output o) in
      let tail : get_from aes_iv_len (encryption.material.iv ++ rest) ≡ some rest =
        get_from-append aes_iv_len encryption.material.iv rest n in
      let got : get_from aes_iv_len output ≡ some ciphertext =
        ok_or-success crypto_error _ ciphertext c in
      let same : ciphertext ≡ rest = cc in
      record { stores = stores; ciphertext = ciphertext; wrapped = s; deciphered = cc; boxed = cc }

  pub parse-encoded :
      (box : ContainerBox) (info : Option SignerInfo) (blob : Blob) (body : ContainerBody)
      → der_encode (record { version = pos container_version; container = box; signer_info = info })
        ≡ some blob
      → body_of crypto box ≡ success body
      → parse crypto blob ≡ success (record { body = body; signer_info = info })
  unfolding parse parse_package require to_u64
  parse-encoded box info blob body d b = rw (lawful.decodes _ blob d, b) refl

  opener_present :
      (principals openers : List GenericAccount)
      → CanOpen crypto principals openers
      → is_empty openers ≡ false
  unfolding CanOpen
  opener_present [] openers m = absurd m
  opener_present (a ∷ principals) [] (inl m) = absurd m
  opener_present (a ∷ principals) [] (inr m) = opener_present principals [] m
  opener_present (a ∷ principals) (b ∷ openers) m = refl

  abbrev pub body_in :
      {encryption : Encryption crypto} {compressed : Bytes} {box : ContainerBox}
      → SealedBox encryption compressed box
      → EncryptedBody
  body_in {encryption} b = record {
    key_stores = b.stores;
    iv = encryption.material.iv;
    ciphertext = b.ciphertext;
  }

  pub SealedBox-parsed :
      (encryption : Encryption crypto) (compressed : Bytes) (box : ContainerBox)
      (b : SealedBox encryption compressed box)
      → body_of crypto box ≡ success (encrypted_body (body_in b))
  unfolding body_of assert_cipher_supported require
  SealedBox-parsed encryption compressed box b =
      rw (b.boxed, text_eq_refl crypto.oid_aes_256_cbc) refl

  pub SealedBox-opens :
      (encryption : Encryption crypto) (compressed : Bytes) (box : ContainerBox)
      (openers : List GenericAccount) (b : SealedBox encryption compressed box)
      → CanOpen crypto encryption.principals openers
      → decrypt_body crypto (body_in b) openers ≡ success compressed
  unfolding decrypt_body
  SealedBox-opens encryption compressed box openers b m =
      let key : Bytes = encryption.material.key in
      let opens : unwrap_symmetric_key crypto b.stores openers ≡ success key =
        unwrap_symmetric_key-opens key b.stores openers
          (wrap_keys-Wraps crypto key encryption.principals b.stores b.wrapped)
          (wrap_keys-openers crypto key openers encryption.principals b.stores b.wrapped m) in
      rw (opener_present encryption.principals openers m, opens, b.deciphered) refl
