-- ===== src/Container/State/Invariant.antt =====
-- What no method of `EncryptedContainer` (keetanetwork-anchor/src/encrypted_container/mod.rs)
-- changes, and what each leaves behind.
use anchor_rs.Prelude.{Bool, true, is_some, ◌≡◌, arith}
use anchor_rs.Prelude.Outcomes.{success}
use anchor_rs.Container.{Crypto}
use anchor_rs.Container.Codec.{is_encrypted, is_encrypted_body}
use anchor_rs.Container.State.{
  EncryptedContainer, align, capture, compute_and_set_key_info, decode_from_encoded,
  compute_plaintext,
}

module _ (crypto : Crypto) where
  -- The fields that reading the encoded form leaves as they are.
  pub record Kept (s t : EncryptedContainer crypto) : Type 0 where
    pub encoded_kept : t.encoded ≡ s.encoded
    pub plaintext_kept : t.plaintext ≡ s.plaintext
    pub access_kept : t.may_access_plaintext ≡ s.may_access_plaintext
    pub signer_kept : t.signer ≡ s.signer

  key_info-Kept :
      (must : Bool) (s : EncryptedContainer crypto)
      → Kept s (compute_and_set_key_info crypto must s).0
  unfolding compute_and_set_key_info align capture
  key_info-Kept must s = ground arith

  key_info-encrypted :
      (s : EncryptedContainer crypto)
      → (compute_and_set_key_info crypto s.encrypted s).0.encrypted ≡ s.encrypted
  unfolding compute_and_set_key_info align capture is_encrypted is_encrypted_body
  key_info-encrypted s = ground arith

  pub decode_from_encoded-Kept :
      (s : EncryptedContainer crypto)
      → Kept s (decode_from_encoded crypto s).0
        × ((decode_from_encoded crypto s).0.encrypted ≡ s.encrypted)
  unfolding decode_from_encoded
  decode_from_encoded-Kept s = ground (arith, key_info-Kept s.encrypted s, key_info-encrypted s)

  -- Computing the plaintext changes no other part of the frame, and once it succeeds the plaintext is
  -- there.
  pub compute_plaintext-keeps :
      (s : EncryptedContainer crypto)
      → let (t, r) = compute_plaintext crypto s in
        (t.encoded ≡ s.encoded)
        × (t.may_access_plaintext ≡ s.may_access_plaintext)
        × (t.encrypted ≡ s.encrypted)
        × (t.signer ≡ s.signer)
        × ((r ≡ success tt) → is_some t.plaintext ≡ true)
        × (is_some s.plaintext ≡ true → (t ≡ s) × (r ≡ success tt))
  unfolding compute_plaintext
  compute_plaintext-keeps s = ground (arith, decode_from_encoded-Kept s)
