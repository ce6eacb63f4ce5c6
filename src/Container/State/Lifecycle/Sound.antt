-- ===== src/Container/State/Lifecycle/Sound.antt =====
-- The invariant of `EncryptedContainer` (keetanetwork-anchor/src/encrypted_container/mod.rs) over one
-- call.
use anchor_rs.Prelude.{
  Bool, true, ◌||◌, ◌⊎◌, none, is_some, List, ◌≡◌, refl, ap, sym, ◌∙◌, subst, inl, inr, branch,
  arith,
}
use anchor_rs.Prelude.Outcomes.{success}
use anchor_rs.Container.{Bytes, Crypto}
use anchor_rs.Container.Codec.{BareContainer, is_encrypted}
use anchor_rs.Container.Codec.Opening.{parse}
use anchor_rs.Container.Codec.Laws.{Lawful}
use anchor_rs.Container.Codec.Signed.{parse-encode}
use anchor_rs.Container.State.{
  Seeds, EncryptedContainer, set_plaintext, disable_plaintext, capture, decode_from_encoded,
}
use anchor_rs.Container.State.Access.{
  get_plaintext, encode_plaintext, encode_encrypted, compute_encoded, get_encoded, grant_access,
  assert_access_management_allowed, revoke_access, take_signing_account, ensure_signer_info_parsed,
  verify_signature,
}
use anchor_rs.Container.State.Invariant.{decode_from_encoded-Kept, compute_plaintext-keeps}
use anchor_rs.Container.State.Lifecycle.{
  Command, replace_plaintext, lock, read_plaintext, take_signer, write_encoded, check_signature,
  grant, revoke, perform, Inv,
}
use anchor_rs.Container.State.Encoded.{
  PlainAlone, decode_from_encoded-PlainAlone, compute_plaintext-PlainAlone, Aligned, Aligned-same,
  Aligned-none, computed, compute_encoded-keeps, encode_payload-success, seal_payload-success,
}

module _ (crypto : Crypto) (lawful : Lawful crypto) where
  -- The form computed has the shape of the container.
  computed-shaped :
      (seeds : Seeds) (s : EncryptedContainer crypto) (blob : crypto.Blob) (bare : BareContainer)
      → computed crypto seeds s ≡ success blob
      → parse crypto blob ≡ success bare
      → is_encrypted bare ≡ s.encrypted
  unfolding encode_plaintext encode_encrypted
  computed-shaped seeds s blob bare h p = elim (branch s.encrypted h) [
    | inl (e, h1) ↦
        let (payload, material, _, _, encoded) =
          seal_payload-success crypto seeds s.signer s.principals s.plaintext blob h1 in
        let (found, q, shape) = parse-encode crypto lawful payload _ s.signer blob encoded in
        let same : found ≡ bare = cc in rw (← same, e) shape
    | inr (e, h1) ↦
        let (payload, _, encoded) = encode_payload-success crypto s.signer s.plaintext blob h1 in
        let (found, q, shape) = parse-encode crypto lawful payload _ s.signer blob encoded in
        let same : found ≡ bare = cc in rw (← same, e) shape
  ]

  compute_encoded-Aligned :
      (seeds : Seeds) (s : EncryptedContainer crypto)
      → Aligned crypto s
      → Aligned crypto (compute_encoded crypto seeds s).0
  compute_encoded-Aligned seeds s h =
      let t = (compute_encoded crypto seeds s).0 in
      let (_, _, e, _, _, _, _, c) = compute_encoded-keeps crypto seeds s in
      elim c [
        | inl same ↦ Aligned-same crypto s t same e h
        | inr (blob, f, g) ↦ λ b bare k p.
            computed-shaped seeds s b bare (let same : blob ≡ b = cc in f ∙ ap success same) p
            ∙ sym e
      ]

  abbrev has_form : EncryptedContainer crypto → Bool
  has_form s = is_some s.plaintext || is_some s.encoded

  -- What a step must show for the invariant: it keeps the encoded form or drops it.
  abbrev Upheld : (s t : EncryptedContainer crypto) → Type 0
  Upheld s t =
      ((t.encoded ≡ s.encoded) ⊎ (t.encoded ≡ none))
      × (t.encrypted ≡ s.encrypted)
      × (has_form t ≡ true)
      × PlainAlone crypto t

  Upheld-Inv : (s t : EncryptedContainer crypto) → Upheld s t → Inv crypto s → Inv crypto t
  Upheld-Inv s t (kept, e, present, alone) h = record {
    present = present;
    plain_alone = alone;
    aligned = elim kept [
      | inl same ↦ Aligned-same crypto s t same e h.aligned
      | inr gone ↦ Aligned-none crypto t gone
    ];
  }

  get_plaintext-Inv :
      (s : EncryptedContainer crypto) → Inv crypto s → Inv crypto (get_plaintext crypto s).0
  unfolding get_plaintext
  get_plaintext-Inv s h =
      Upheld-Inv s (get_plaintext crypto s).0
        (ground (
          arith,
          compute_plaintext-keeps crypto s,
          compute_plaintext-PlainAlone crypto s h.plain_alone,
          h.present,
        ))
        h

  grant_access-Inv :
      (accounts : List crypto.GenericAccount) (s : EncryptedContainer crypto)
      → Inv crypto s
      → Inv crypto (grant_access crypto accounts s).0
  unfolding grant_access assert_access_management_allowed
  grant_access-Inv accounts s h =
      Upheld-Inv s (grant_access crypto accounts s).0
        (ground (
          arith,
          compute_plaintext-keeps crypto s,
          compute_plaintext-PlainAlone crypto s h.plain_alone,
          h.present,
        ))
        h

  revoke_access-Inv :
      (key : Bytes) (s : EncryptedContainer crypto)
      → Inv crypto s
      → Inv crypto (revoke_access crypto key s).0
  unfolding revoke_access assert_access_management_allowed
  revoke_access-Inv key s h =
      Upheld-Inv s (revoke_access crypto key s).0
        (ground (
          arith,
          compute_plaintext-keeps crypto s,
          compute_plaintext-PlainAlone crypto s h.plain_alone,
          h.present,
        ))
        h

  take_signing_account-Inv :
      (s : EncryptedContainer crypto) → Inv crypto s → Inv crypto (take_signing_account crypto s).0
  unfolding take_signing_account
  take_signing_account-Inv s h =
      Upheld-Inv s (take_signing_account crypto s).0 (ground (arith, h.present, h.plain_alone)) h

  compute_encoded-Inv :
      (seeds : Seeds) (s : EncryptedContainer crypto)
      → Inv crypto s
      → Inv crypto (compute_encoded crypto seeds s).0
  compute_encoded-Inv seeds s h = record {
    present = ground (arith, compute_encoded-keeps crypto seeds s, h.present);
    plain_alone = ground (arith, compute_encoded-keeps crypto seeds s, h.plain_alone);
    aligned = compute_encoded-Aligned seeds s h.aligned;
  }

  get_encoded-compute :
      (seeds : Seeds) (s : EncryptedContainer crypto)
      → (get_encoded crypto seeds s).0 ≡ (compute_encoded crypto seeds s).0
  unfolding get_encoded
  get_encoded-compute seeds s = ground arith

  ensure_signer_info_parsed-Inv :
      (seeds : Seeds) (s : EncryptedContainer crypto)
      → Inv crypto s
      → Inv crypto (ensure_signer_info_parsed crypto seeds s).0
  unfolding ensure_signer_info_parsed capture
  ensure_signer_info_parsed-Inv seeds s h =
      let c = compute_encoded-Inv seeds s h in
      let u = (compute_encoded crypto seeds s).0 in
      let t = (ensure_signer_info_parsed crypto seeds s).0 in
      let m : (t ≡ s)
          ⊎ ((t.encoded ≡ u.encoded)
              × (t.encrypted ≡ u.encrypted)
              × (t.principals ≡ u.principals)
              × (t.plaintext ≡ u.plaintext)) =
        ground arith in
      elim m [
        | inl same ↦ subst (Inv crypto) (sym same) h
        | inr (e, f, g, p) ↦
            Upheld-Inv u t (inl e, f, ground (arith, c.present), ground (arith, c.plain_alone)) c
      ]

  decode_from_encoded-Inv :
      (s : EncryptedContainer crypto) → Inv crypto s → Inv crypto (decode_from_encoded crypto s).0
  decode_from_encoded-Inv s h =
      let (kept, e) = decode_from_encoded-Kept crypto s in
      Upheld-Inv s (decode_from_encoded crypto s).0
        (
          inl kept.encoded_kept,
          e,
          ground (arith, kept.encoded_kept, kept.plaintext_kept, h.present),
          decode_from_encoded-PlainAlone crypto s h.plain_alone,
        )
        h

  verify_signature-Inv :
      (seeds : Seeds) (s : EncryptedContainer crypto)
      → Inv crypto s
      → Inv crypto (verify_signature crypto seeds s).0
  unfolding verify_signature
  verify_signature-Inv seeds s h =
      let u = (ensure_signer_info_parsed crypto seeds s).0 in
      let c = ensure_signer_info_parsed-Inv seeds s h in
      let t = (verify_signature crypto seeds s).0 in
      let m : (t ≡ u) ⊎ (t ≡ (decode_from_encoded crypto u).0) = ground arith in
      elim m [
        | inl same ↦ subst (Inv crypto) (sym same) c
        | inr same ↦ subst (Inv crypto) (sym same) (decode_from_encoded-Inv u c)
      ]

  -- Every public method, called on a container that satisfies the invariant, leaves one.
  pub perform-Inv :
      (command : Command crypto) (s : EncryptedContainer crypto)
      → Inv crypto s
      → Inv crypto (perform crypto command s)
  unfolding perform set_plaintext disable_plaintext
  perform-Inv (replace_plaintext payload) s h =
      Upheld-Inv s (set_plaintext crypto payload s) (inr refl, refl, refl, h.plain_alone) h
  perform-Inv lock s h =
      Upheld-Inv s (disable_plaintext crypto s) (inl refl, refl, h.present, h.plain_alone) h
  perform-Inv read_plaintext s h = get_plaintext-Inv s h
  perform-Inv take_signer s h = take_signing_account-Inv s h
  perform-Inv (write_encoded seeds) s h =
      subst (Inv crypto) (sym (get_encoded-compute seeds s)) (compute_encoded-Inv seeds s h)
  perform-Inv (check_signature seeds) s h = verify_signature-Inv seeds s h
  perform-Inv (grant accounts) s h = grant_access-Inv accounts s h
  perform-Inv (revoke key) s h = revoke_access-Inv key s h
