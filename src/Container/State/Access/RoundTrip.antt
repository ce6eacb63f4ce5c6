-- ===== src/Container/State/Access/RoundTrip.antt =====
-- Sealing, restoring and reading an `EncryptedContainer`
-- (keetanetwork-anchor/src/encrypted_container/mod.rs), end to end.
use anchor_rs.Prelude.{
  true, false, not, Option, none, some, List, any, map, length, text_eq, text_eq_sound, and_true,
  arith, ◌≡◌, refl, sym, ◌∙◌, subst, All, Any, any_sound,
}
use anchor_rs.Prelude.Outcomes.{success, failure}
use anchor_rs.Container.{Bytes, KeyStore, SignerInfo, Crypto, Result}
use anchor_rs.Container.Codec.{
  aes_iv_len, CipherMaterial, Encryption, box_of, encode, encrypted_body, EncryptedBody,
  BareContainer, decompress,
}
use anchor_rs.Container.Codec.Opening.{parse, compressed_of, decode_body}
use anchor_rs.Container.Codec.Laws.{
  Lawful, Wraps, HasOpener, CanOpen, encode-success, wrap_keys-Wraps,
}
use anchor_rs.Container.Codec.Sealed.{
  seal_body-success, parse-encoded, body_in, SealedBox-parsed, SealedBox-opens,
}
use anchor_rs.Container.Merge.{has_key, merge_principals}
use anchor_rs.Container.Merge.Laws.{opens}
use anchor_rs.Container.State.{
  Seeds, EncryptedContainer, FromPlaintextOptions, new, set_plaintext, set_encoded,
  disable_plaintext, from_plaintext, from_blob, from_encoded, compute_and_set_key_info, restored,
}
use anchor_rs.Container.State.Access.{seal_payload, get_plaintext, get_encoded}
use anchor_rs.Container.State.Access.Granting.{get_encoded-sealing, wrap_keys-names, any-names}
use anchor_rs.Container.State.Encoded.{seal_payload-success}
use anchor_rs.Container.State.Access.Reopening.{
  random-length, merge_principals-total, key_info-sealed, get_plaintext-sealed, merged_twice,
}

module _ (crypto : Crypto) (lawful : Lawful crypto) where
  open crypto use {GenericAccount, public_key_with_type, has_private_key, Blob}

  from_plaintext-fields :
      (payload : Bytes) (principals : List GenericAccount) (options : FromPlaintextOptions crypto)
      → let s = from_plaintext crypto payload (some principals) options in
        (s.encrypted ≡ true)
        × (s.encoded ≡ none)
        × (s.plaintext ≡ some payload)
        × (s.principals ≡ principals)
        × (s.signer ≡ options.signer)
  unfolding from_plaintext new set_plaintext disable_plaintext
  from_plaintext-fields payload principals options = ground arith

  -- What a container made of a plaintext and principals hands to the codec.
  from_plaintext-encodes :
      (payload : Bytes) (principals : List GenericAccount) (options : FromPlaintextOptions crypto)
      (seeds : Seeds) (blob : Blob)
      → (get_encoded crypto seeds (from_plaintext crypto payload (some principals) options)).1
        ≡ success blob
      → (material : CipherMaterial) × (length material.iv ≡ aes_iv_len)
        × (encode crypto payload
              (some (record { principals = principals; material = material }))
              options.signer
            ≡ success blob)
  from_plaintext-encodes payload principals options seeds blob h =
      let s = from_plaintext crypto payload (some principals) options in
      let (e, n, p, a, g) = from_plaintext-fields payload principals options in
      let sealing : seal_payload crypto seeds s.signer s.principals s.plaintext ≡ success blob =
        get_encoded-sealing crypto seeds s blob e n h in
      let stated : seal_payload crypto seeds options.signer principals (some payload)
          ≡ success blob =
        cc in
      let (p', material, same, m, encoded) =
        seal_payload-success crypto seeds options.signer principals (some payload) blob stated in
      let payload_same : p' ≡ payload = cc in
      (
        material,
        random-length seeds.key_seed seeds.iv_seed material m,
        subst
            (λ x.
              encode crypto x (some (record { principals = principals; material = material }))
                options.signer
              ≡ success blob)
            payload_same encoded,
      )

  opens-HasOpener :
      (key : Bytes) (accounts : List GenericAccount)
      → any (opens crypto lawful key) accounts ≡ true
      → HasOpener crypto accounts key
  opens-HasOpener key accounts h =
      any_sound (opens crypto lawful key)
        (λ b e. let (k, p) = and_true e in (text_eq_sound _ key k, p)) accounts h

  named-CanOpen :
      (key : Bytes) (principals accounts : List GenericAccount)
      → any (has_key crypto key) principals ≡ true
      → HasOpener crypto accounts key
      → CanOpen crypto principals accounts
  unfolding CanOpen
  named-CanOpen key principals accounts k o =
      any_sound (has_key crypto key)
        (λ a e. subst (HasOpener crypto accounts) (sym (text_eq_sound _ key e)) o) principals k

  -- What restoring takes of a sealed form: its parse, and its opening by accounts.
  record Sealing (payload : Bytes) (principals : List GenericAccount) (blob : Blob) : Type 0 where
    body : EncryptedBody
    info : Option SignerInfo
    key : Bytes
    parsed : parse crypto blob ≡ success (record { body = encrypted_body body; signer_info = info })
    wrapped : All (Wraps crypto key) body.key_stores
    names : map (λ store. store.public_key) body.key_stores ≡ map public_key_with_type principals
    opened :
        (accounts : List GenericAccount)
        → CanOpen crypto principals accounts
        → decode_body crypto (encrypted_body body) accounts
          ≡ success
              (record { compressed = crypto.compress_to_vec_zlib payload; plaintext = payload })

  encode-Sealing :
      (payload : Bytes) (encryption : Encryption crypto) (signer : Option GenericAccount)
      (blob : Blob)
      → length encryption.material.iv ≡ aes_iv_len
      → encode crypto payload (some encryption) signer ≡ success blob
      → Sealing payload encryption.principals blob
  unfolding box_of decode_body compressed_of decompress
  encode-Sealing payload encryption signer blob n h =
      let (box, info, b, _, d) = encode-success crypto payload (some encryption) signer blob h in
      let sealed = seal_body-success crypto lawful _ encryption box n b in
      record {
        body = body_in crypto lawful sealed;
        info = info;
        key = encryption.material.key;
        parsed =
            parse-encoded crypto lawful box info blob
              (encrypted_body (body_in crypto lawful sealed)) d
              (SealedBox-parsed crypto lawful encryption _ box sealed);
        wrapped = wrap_keys-Wraps crypto _ encryption.principals sealed.stores sealed.wrapped;
        names = wrap_keys-names crypto _ encryption.principals sealed.stores sealed.wrapped;
        opened = λ accounts m.
            rw
              (
                SealedBox-opens crypto lawful encryption _ box accounts sealed m,
                lawful.inflates payload,
              )
              refl;
      }

  named_store :
      (key : Bytes) (stores : List KeyStore) (principals : List GenericAccount)
      → map (λ store. store.public_key) stores ≡ map public_key_with_type principals
      → any (has_key crypto key) principals ≡ true
      → Any (λ store. store.public_key ≡ key) stores
  named_store key stores principals e k =
      any_sound (λ store. text_eq store.public_key key) (λ store f. text_eq_sound _ key f) stores
        (any-names crypto (λ n. text_eq n key) stores principals e ∙ k)

  restored-state :
      (r : EncryptedContainer crypto × Result BareContainer) (bare : BareContainer)
      → r.1 ≡ success bare
      → restored crypto r ≡ success (r.0)
  restored-state (s, success b) bare h = refl
  restored-state (s, failure e) bare h = cc

  -- A payload sealed to principals and encoded is restored by `from_encoded` and read back, by any
  -- accounts that all hold private keys, one of which has the key of a principal. The DER codec, zlib, the
  -- cipher and the accounts undo what they did, and an account is read from its public key.
  pub from_encoded-get_plaintext :
      (payload : Bytes) (principals openers : List GenericAccount)
      (options : FromPlaintextOptions crypto) (seeds : Seeds) (blob : Blob) (key : Bytes)
      → (get_encoded crypto seeds (from_plaintext crypto payload (some principals) options)).1
        ≡ success blob
      → any (has_key crypto key) principals ≡ true
      → any (has_key crypto key) openers ≡ true
      → any (λ a. not (has_private_key a)) openers ≡ false
      → (s : EncryptedContainer crypto) × (from_encoded crypto blob (some openers) ≡ success s)
        × ((get_plaintext crypto s).1 ≡ success payload)
  unfolding from_encoded from_blob set_encoded new
  from_encoded-get_plaintext payload principals openers options seeds blob key h k o p =
      let (material, n, encoded) = from_plaintext-encodes payload principals options seeds blob h in
      let g = encode-Sealing payload _ options.signer blob n encoded in
      let (merged, m) =
        merge_principals-total crypto lawful g.key g.body.key_stores openers g.wrapped in
      let (again, l) =
        merge_principals-total crypto lawful g.key g.body.key_stores merged g.wrapped in
      let s0 : EncryptedContainer crypto =
        set_encoded crypto blob (new crypto (some openers) none) in
      let (r, ps, e, b, t, a) =
        key_info-sealed crypto lawful false s0 blob g.body g.info merged refl refl g.parsed m in
      let named = named_store key g.body.key_stores principals g.names k in
      let opener =
        opens-HasOpener key again
          (merged_twice crypto lawful key g.body.key_stores openers merged again named o p m l) in
      let s = (compute_and_set_key_info crypto false s0).0 in
      (
        s,
        restored-state (compute_and_set_key_info crypto false s0) _ r,
        get_plaintext-sealed crypto lawful s blob g.body g.info again _ b e t a g.parsed
            (subst (λ x. merge_principals crypto g.body.key_stores x ≡ success again) (sym ps) l)
            (g.opened again (named-CanOpen key principals again k opener)),
      )
