-- ===== src/Container/State/Encoded.antt =====
-- What the encoding and the decoding of an `EncryptedContainer`
-- (keetanetwork-anchor/src/encrypted_container/mod.rs) leave behind, and when sealing succeeds.
use anchor_rs.Prelude.{
  Bool, true, false, ◌⊎◌, Option, none, some, is_some, is_empty, List, [], ◌≡◌, refl, sym, ◌∙◌, inl,
  inr, branch, arith, if◌then◌else◌,
}
use anchor_rs.Prelude.Outcomes.{success, failure}
use anchor_rs.Container.{Bytes, Crypto, Result}
use anchor_rs.Container.Codec.{CipherMaterial, BareContainer, is_encrypted, random, encode}
use anchor_rs.Container.Codec.Opening.{parse}
use anchor_rs.Container.State.{
  Seeds, EncryptedContainer, compute_and_set_key_info, align, capture, decode_from_encoded,
  compute_plaintext,
}
use anchor_rs.Container.State.Access.{
  encode_payload, encode_plaintext, seal, seal_payload, encode_encrypted, compute_encoded,
}

module _ (crypto : Crypto) where
  open crypto use {GenericAccount, Blob}

  abbrev pub PlainAlone : EncryptedContainer crypto → Type 0
  PlainAlone s = s.encrypted ≡ false → s.principals ≡ []

  pub key_info-PlainAlone :
      (must : Bool) (s : EncryptedContainer crypto)
      → PlainAlone s
      → PlainAlone (compute_and_set_key_info crypto must s).0
  unfolding compute_and_set_key_info align capture
  key_info-PlainAlone must s h = ground arith

  pub decode_from_encoded-PlainAlone :
      (s : EncryptedContainer crypto) → PlainAlone s → PlainAlone (decode_from_encoded crypto s).0
  unfolding decode_from_encoded
  decode_from_encoded-PlainAlone s h = ground (arith, key_info-PlainAlone s.encrypted s)

  pub compute_plaintext-PlainAlone :
      (s : EncryptedContainer crypto) → PlainAlone s → PlainAlone (compute_plaintext crypto s).0
  unfolding compute_plaintext
  compute_plaintext-PlainAlone s h = ground (arith, decode_from_encoded-PlainAlone s)

  abbrev pub Aligned : EncryptedContainer crypto → Type 0
  Aligned s =
      (blob : Blob) (bare : BareContainer)
      → s.encoded ≡ some blob
      → parse crypto blob ≡ success bare
      → is_encrypted bare ≡ s.encrypted

  pub Aligned-same :
      (s t : EncryptedContainer crypto)
      → t.encoded ≡ s.encoded
      → t.encrypted ≡ s.encrypted
      → Aligned s
      → Aligned t
  Aligned-same s t e f h blob bare b p = h blob bare (sym e ∙ b) p ∙ sym f

  pub Aligned-none : (t : EncryptedContainer crypto) → t.encoded ≡ none → Aligned t
  Aligned-none t e blob bare b p = cc

  -- The form that a container without one computes.
  abbrev pub computed : Seeds → EncryptedContainer crypto → Result Blob
  computed seeds s =
      if s.encrypted then encode_encrypted crypto seeds s else encode_plaintext crypto s

  -- Computing the encoded form changes nothing else.
  pub compute_encoded-keeps :
      (seeds : Seeds) (s : EncryptedContainer crypto)
      → let (t, r) = compute_encoded crypto seeds s in
        (t.plaintext ≡ s.plaintext)
        × (t.may_access_plaintext ≡ s.may_access_plaintext)
        × (t.encrypted ≡ s.encrypted)
        × (t.principals ≡ s.principals)
        × (t.signer ≡ s.signer)
        × (t.parsed_signer_info ≡ s.parsed_signer_info)
        × ((r ≡ success tt) → is_some t.encoded ≡ true)
        × ((t.encoded ≡ s.encoded)
            ⊎ ((blob : Blob) × (computed seeds s ≡ success blob) × (t.encoded ≡ some blob)))
  unfolding compute_encoded
  compute_encoded-keeps seeds s = ground arith

  pub encode_payload-success :
      (signer : Option GenericAccount) (o : Option Bytes) (blob : Blob)
      → encode_payload crypto signer o ≡ success blob
      → (payload : Bytes) × (o ≡ some payload) × (encode crypto payload none signer ≡ success blob)
  encode_payload-success signer none blob h = cc
  encode_payload-success signer (some payload) blob h = (payload, refl, h)

  pub seal-success :
      (signer : Option GenericAccount) (principals : List GenericAccount) (payload : Bytes)
      (m : Result CipherMaterial) (blob : Blob)
      → seal crypto signer principals payload m ≡ success blob
      → (material : CipherMaterial) × (m ≡ success material)
        × (encode crypto payload
              (some (record { principals = principals; material = material }))
              signer
            ≡ success blob)
  seal-success signer principals payload (failure e) blob h = cc
  seal-success signer principals payload (success material) blob h = (material, refl, h)

  -- A sealed encoding has a payload, principals and fresh material.
  pub seal_payload-success :
      (seeds : Seeds) (signer : Option GenericAccount) (principals : List GenericAccount)
      (o : Option Bytes) (blob : Blob)
      → seal_payload crypto seeds signer principals o ≡ success blob
      → (payload : Bytes) × (material : CipherMaterial) × (o ≡ some payload)
        × (random seeds.key_seed seeds.iv_seed ≡ success material)
        × (encode crypto payload
              (some (record { principals = principals; material = material }))
              signer
            ≡ success blob)
  seal_payload-success seeds signer principals none blob h = cc
  seal_payload-success seeds signer principals (some payload) blob h =
      elim (branch (is_empty principals) h) [
        | inl (_, f) ↦ cc
        | inr (_, h1) ↦
            let (material, m, e) =
              seal-success signer principals payload (random seeds.key_seed seeds.iv_seed) blob
                h1 in
            (payload, material, refl, m, e)
      ]
