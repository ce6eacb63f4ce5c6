-- ===== src/Container/State/Lifecycle/Runs.antt =====
-- What holds of an `EncryptedContainer` (keetanetwork-anchor/src/encrypted_container/mod.rs) after any
-- run of its public methods.
use anchor_rs.Prelude.{
  Bool, false, Option, some, is_some, List, [], ◌∷◌, ◌≡◌, refl, sym, ◌∙◌, ap, arith,
}
use mathlib.Core.Bool.{or-true}
use anchor_rs.Prelude.Outcomes.{success, failure, success_injective}
use anchor_rs.Container.{Bytes, plaintext_disabled, Crypto, Result}
use anchor_rs.Container.Codec.{BareContainer, is_encrypted, is_encrypted_body}
use anchor_rs.Container.Codec.Opening.{parse}
use anchor_rs.Container.Codec.Laws.{Lawful}
use anchor_rs.Container.State.{
  Seeds, EncryptedContainer, FromPlaintextOptions, new, set_plaintext, set_encoded,
  disable_plaintext, from_plaintext, from_blob, from_encoded, compute_and_set_key_info, align,
  capture, restored,
}
use anchor_rs.Container.State.Access.{
  get_plaintext, get_encoded, grant_access, assert_access_management_allowed, revoke_access,
  take_signing_account, ensure_signer_info_parsed, verify_signature,
}
use anchor_rs.Container.State.Invariant.{decode_from_encoded-Kept, compute_plaintext-keeps}
use anchor_rs.Container.State.Lifecycle.{
  Command, replace_plaintext, lock, read_plaintext, take_signer, write_encoded, check_signature,
  grant, revoke, perform, perform_all, Inv,
}
use anchor_rs.Container.State.Encoded.{compute_encoded-keeps}
use anchor_rs.Container.State.Lifecycle.Sound.{perform-Inv}

module _ (crypto : Crypto) where
  open crypto use {GenericAccount, Blob}

  ensure_signer_info_parsed-access :
      (seeds : Seeds) (s : EncryptedContainer crypto)
      → let t = (ensure_signer_info_parsed crypto seeds s).0 in
        (t.may_access_plaintext ≡ s.may_access_plaintext) × (t.encrypted ≡ s.encrypted)
  unfolding ensure_signer_info_parsed capture
  ensure_signer_info_parsed-access seeds s = ground (arith, compute_encoded-keeps crypto seeds s)

  verify_signature-access :
      (seeds : Seeds) (s : EncryptedContainer crypto)
      → let t = (verify_signature crypto seeds s).0 in
        (t.may_access_plaintext ≡ s.may_access_plaintext) × (t.encrypted ≡ s.encrypted)
  unfolding verify_signature
  verify_signature-access seeds s = ground (
    arith,
    ensure_signer_info_parsed-access seeds s,
    decode_from_encoded-Kept crypto (ensure_signer_info_parsed crypto seeds s).0,
  )

  -- No method seals an open container or opens a sealed one.
  perform-encrypted :
      (command : Command crypto) (s : EncryptedContainer crypto)
      → (perform crypto command s).encrypted ≡ s.encrypted
  unfolding perform set_plaintext disable_plaintext get_plaintext get_encoded grant_access
      assert_access_management_allowed revoke_access take_signing_account
  perform-encrypted (replace_plaintext payload) s = refl
  perform-encrypted lock s = refl
  perform-encrypted read_plaintext s = ground (arith, compute_plaintext-keeps crypto s)
  perform-encrypted take_signer s = ground arith
  perform-encrypted (write_encoded seeds) s = ground (arith, compute_encoded-keeps crypto seeds s)
  perform-encrypted (check_signature seeds) s = (verify_signature-access seeds s).1
  perform-encrypted (grant accounts) s = ground (arith, compute_plaintext-keeps crypto s)
  perform-encrypted (revoke key) s = ground (arith, compute_plaintext-keeps crypto s)

  -- No method gives access to the plaintext back.
  perform-locked :
      (command : Command crypto) (s : EncryptedContainer crypto)
      → s.may_access_plaintext ≡ false
      → (perform crypto command s).may_access_plaintext ≡ false
  unfolding perform set_plaintext disable_plaintext get_plaintext get_encoded grant_access
      assert_access_management_allowed revoke_access take_signing_account
  perform-locked (replace_plaintext payload) s h = h
  perform-locked lock s h = refl
  perform-locked read_plaintext s h = ground (arith, compute_plaintext-keeps crypto s)
  perform-locked take_signer s h = ground arith
  perform-locked (write_encoded seeds) s h = ground (arith, compute_encoded-keeps crypto seeds s)
  perform-locked (check_signature seeds) s h = (verify_signature-access seeds s).0 ∙ h
  perform-locked (grant accounts) s h = ground (arith, compute_plaintext-keeps crypto s)
  perform-locked (revoke key) s h = ground (arith, compute_plaintext-keeps crypto s)

  perform_all-encrypted :
      (commands : List (Command crypto)) (s : EncryptedContainer crypto)
      → (perform_all crypto commands s).encrypted ≡ s.encrypted
  unfolding perform_all
  perform_all-encrypted [] s = refl
  perform_all-encrypted (command ∷ commands) s =
      perform_all-encrypted commands (perform crypto command s) ∙ perform-encrypted command s

  perform_all-locked :
      (commands : List (Command crypto)) (s : EncryptedContainer crypto)
      → s.may_access_plaintext ≡ false
      → (get_plaintext crypto (perform_all crypto commands s)).1 ≡ failure plaintext_disabled
  unfolding perform_all get_plaintext
  perform_all-locked [] s h = rw h refl
  perform_all-locked (command ∷ commands) s h =
      perform_all-locked commands (perform crypto command s) (perform-locked command s h)

  -- Once `disable_plaintext` was called, `get_plaintext` refuses to hand the plaintext out after any run of
  -- the public methods, `grant_access` and `set_plaintext` included.
  pub perform_all-disable_plaintext :
      (commands : List (Command crypto)) (s : EncryptedContainer crypto)
      → (get_plaintext crypto (perform_all crypto commands (disable_plaintext crypto s))).1
        ≡ failure plaintext_disabled
  unfolding disable_plaintext
  perform_all-disable_plaintext commands s =
      perform_all-locked commands (disable_plaintext crypto s) refl

module _ (crypto : Crypto) (lawful : Lawful crypto) where
  open crypto use {GenericAccount, Blob}

  pub from_plaintext-Inv :
      (payload : Bytes) (principals : Option (List GenericAccount))
      (options : FromPlaintextOptions crypto)
      → Inv crypto (from_plaintext crypto payload principals options)
  unfolding from_plaintext new set_plaintext disable_plaintext
  from_plaintext-Inv payload principals options = record {
    present = refl;
    plain_alone = ground arith;
    aligned = ground arith;
  }

  perform_all-Inv :
      (commands : List (Command crypto)) (s : EncryptedContainer crypto)
      → Inv crypto s
      → Inv crypto (perform_all crypto commands s)
  unfolding perform_all
  perform_all-Inv [] s h = h
  perform_all-Inv (command ∷ commands) s h =
      perform_all-Inv commands (perform crypto command s) (perform-Inv crypto lawful command s h)

  key_info-success :
      (must : Bool) (s t : EncryptedContainer crypto) (bare : BareContainer) (blob : Blob)
      → s.encoded ≡ some blob
      → compute_and_set_key_info crypto must s ≡ (t, success bare)
      → (parse crypto blob ≡ success bare)
        × (t.encrypted ≡ is_encrypted bare)
        × (t.encoded ≡ some blob)
        × (t.encrypted ≡ false → t.principals ≡ [])
  unfolding compute_and_set_key_info align capture is_encrypted is_encrypted_body
  key_info-success must s t bare blob e h = ground arith

  restored-success :
      (r : EncryptedContainer crypto × Result BareContainer) (s : EncryptedContainer crypto)
      → restored crypto r ≡ success s
      → (bare : BareContainer) × (r ≡ (s, success bare))
  restored-success (t, success bare) s h = (bare, ap (λ x. (x, success bare)) (success_injective h))
  restored-success (t, failure e) s h = cc

  parsed_once :
      {blob blob' : Blob} {bare bare' : BareContainer} {o : Option Blob} {b : Bool}
      → parse crypto blob ≡ success bare
      → b ≡ is_encrypted bare
      → o ≡ some blob
      → o ≡ some blob'
      → parse crypto blob' ≡ success bare'
      → is_encrypted bare' ≡ b
  parsed_once p e f g q = cc

  -- A container read from a blob satisfies the invariant.
  from_blob-Inv :
      (must : Bool) (blob : Blob) (principals : Option (List GenericAccount))
      (s : EncryptedContainer crypto)
      → from_blob crypto must blob principals ≡ success s
      → Inv crypto s
  unfolding from_blob set_encoded
  from_blob-Inv must blob principals s h =
      let (bare, k) = restored-success (compute_and_set_key_info crypto must _) s h in
      let (p, e, b, alone) = key_info-success must _ s bare blob refl k in
      record {
        present = rw b (or-true (is_some s.plaintext));
        plain_alone = alone;
        aligned = λ blob' bare' f q. parsed_once p e b f q;
      }

  from_blob-encoded :
      (must : Bool) (blob : Blob) (principals : Option (List GenericAccount))
      (s : EncryptedContainer crypto)
      → from_blob crypto must blob principals ≡ success s
      → s.encoded ≡ some blob
  unfolding from_blob set_encoded
  from_blob-encoded must blob principals s h =
      let (bare, k) = restored-success (compute_and_set_key_info crypto must _) s h in
      let (_, _, b, _) = key_info-success must _ s bare blob refl k in b

  get_encoded-cached :
      (seeds : Seeds) (s : EncryptedContainer crypto) (blob : Blob)
      → (get_encoded crypto seeds s).1 ≡ success blob
      → (get_encoded crypto seeds s).0.encoded ≡ some blob
  unfolding get_encoded
  get_encoded-cached seeds s blob h = ground arith

  -- The form that a container which satisfies the invariant gives out is sealed exactly when the
  -- container is.
  pub get_encoded-aligned :
      (seeds : Seeds) (s : EncryptedContainer crypto) (blob : Blob) (bare : BareContainer)
      → Inv crypto s
      → (get_encoded crypto seeds s).1 ≡ success blob
      → parse crypto blob ≡ success bare
      → is_encrypted bare ≡ s.encrypted
  unfolding perform get_encoded
  get_encoded-aligned seeds s blob bare h g p =
      (perform-Inv crypto lawful (write_encoded seeds) s h).aligned blob bare
        (get_encoded-cached seeds s blob g) p
      ∙ perform-encrypted crypto (write_encoded seeds) s

  -- The same of a container read from a blob, which stays as the blob was: a sealed one is never
  -- given out in the open, and an open one is never sealed.
  pub from_encoded-aligned :
      (blob blob' : Blob) (principals : Option (List GenericAccount)) (bare bare' : BareContainer)
      (s : EncryptedContainer crypto) (commands : List (Command crypto)) (seeds : Seeds)
      → parse crypto blob ≡ success bare
      → from_encoded crypto blob principals ≡ success s
      → (get_encoded crypto seeds (perform_all crypto commands s)).1 ≡ success blob'
      → parse crypto blob' ≡ success bare'
      → is_encrypted bare' ≡ is_encrypted bare
  unfolding from_encoded
  from_encoded-aligned blob blob' principals bare bare' s commands seeds p h g q =
      let inv = from_blob-Inv false blob principals s h in
      get_encoded-aligned seeds (perform_all crypto commands s) blob' bare'
        (perform_all-Inv commands s inv) g q
      ∙ perform_all-encrypted crypto commands s
      ∙ sym (inv.aligned blob bare (from_blob-encoded false blob principals s h) p)
