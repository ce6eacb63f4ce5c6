-- ===== src/Container/Tests.antt =====
-- Runs of keetanetwork-anchor/src/encrypted_container on small containers.

use anchor_rs.Prelude.{
  true, false, Option, none, some, List, [], ◌∷◌, map, any, ◌≡◌, refl, text_eq, is_some, pos,
}
use anchor_rs.Prelude.Outcomes.{success, failure}
use anchor_rs.Container.{
  Bytes, no_matching_key, not_signed, no_encoded_data_available, plaintext_disabled,
  encryption_required, KeyStore, SignerInfo, plaintext,
}
use anchor_rs.Container.Toy.{
  toy, toy-Lawful, alice, bob, seed, seeds, signing, shared, signed_by_alice, store_of, form, both,
  shared_blob, note,
}
use anchor_rs.Container.Codec.{
  CipherMaterial, Encryption, encode, is_encrypted, BareContainer, encrypted_body, EncryptedBody,
}
use anchor_rs.Container.Codec.Opening.{parse, unwrap_symmetric_key}
use anchor_rs.Container.Codec.Signed.{SignedBlob, encode-SignedBlob}
use anchor_rs.Container.Merge.{has_key, merge_principals}
use anchor_rs.Container.State.{
  EncryptedContainer, disable_plaintext, from_plaintext, from_encoded, from_encrypted,
  set_plaintext, compute_plaintext, is_signed,
}
use anchor_rs.Container.State.Access.{
  get_plaintext, get_encoded, grant_access, revoke_access, verify_signature, take_signing_account,
}
use anchor_rs.Container.State.Access.Granting.{revoke_access-unwraps_none}
use anchor_rs.Container.State.Access.RoundTrip.{from_encoded-get_plaintext}
use anchor_rs.Container.State.Lifecycle.{
  replace_plaintext, grant, check_signature, Command, perform_all,
}
use anchor_rs.Container.State.Lifecycle.Runs.{perform_all-disable_plaintext}

abbrev bob_key : Bytes
bob_key = 2 ∷ []

shared_form : (get_encoded toy seeds shared).1 ≡ success shared_blob
unfolding get_encoded anchor_rs.Container.State.Access.compute_encoded from_plaintext
    anchor_rs.Container.State.Access.encode_encrypted anchor_rs.Container.Codec.random encode
    anchor_rs.Container.Codec.box_of anchor_rs.Container.Codec.seal_body
    anchor_rs.Container.Codec.signer_info_of anchor_rs.Container.Codec.sign_compressed
shared_form = refl

bob_named : any (has_key toy bob_key) both ≡ true
unfolding text_eq
bob_named = refl

bob_opens : any (has_key toy bob_key) (bob ∷ []) ≡ true
unfolding text_eq
bob_opens = refl

from_encoded-get_plaintext_example :
    (s : EncryptedContainer toy) × (from_encoded toy shared_blob (some (bob ∷ [])) ≡ success s)
    × ((get_plaintext toy s).1 ≡ success (7 ∷ 8 ∷ []))
from_encoded-get_plaintext_example =
    from_encoded-get_plaintext toy toy-Lawful (7 ∷ 8 ∷ []) both (bob ∷ []) signing seeds shared_blob
      bob_key shared_form bob_named bob_opens refl

-- A container of the codec alone.
abbrev sealing : Option (Encryption toy)
sealing = some (record { principals = both; material = record { key = 9 ∷ []; iv = seed } })

sealed_form : encode toy (7 ∷ 8 ∷ []) sealing (some alice) ≡ success shared_blob
unfolding encode anchor_rs.Container.Codec.box_of anchor_rs.Container.Codec.seal_body
    anchor_rs.Container.Codec.signer_info_of anchor_rs.Container.Codec.sign_compressed
sealed_form = refl

encode-SignedBlob_example : SignedBlob toy (7 ∷ 8 ∷ []) true alice shared_blob
encode-SignedBlob_example =
    encode-SignedBlob toy toy-Lawful (7 ∷ 8 ∷ []) sealing alice shared_blob sealed_form

abbrev commands : List (Command toy)
commands = replace_plaintext (5 ∷ []) ∷ grant (bob ∷ []) ∷ check_signature seeds ∷ []

perform_all-disable_plaintext_example :
    (get_plaintext toy (perform_all toy commands (disable_plaintext toy note))).1
    ≡ failure plaintext_disabled
perform_all-disable_plaintext_example = perform_all-disable_plaintext toy commands note

abbrev revoked_blob : BareContainer
revoked_blob = record {
  body =
      encrypted_body
        (record { key_stores = store_of 1 ∷ []; iv = seed; ciphertext = 120 ∷ 7 ∷ 8 ∷ [] });
  signer_info = some signed_by_alice;
}

abbrev revoked : EncryptedContainer toy
revoked = (revoke_access toy bob_key shared).0

revoked_state : revoke_access toy bob_key shared ≡ (revoked, success tt)
unfolding revoke_access compute_plaintext from_plaintext
    anchor_rs.Container.State.Access.assert_access_management_allowed
revoked_state = refl

revoked_output : (get_encoded toy seeds revoked).1 ≡ success (form (store_of 1 ∷ []))
unfolding get_encoded anchor_rs.Container.State.Access.compute_encoded revoke_access
    compute_plaintext from_plaintext
    anchor_rs.Container.State.Access.assert_access_management_allowed
    anchor_rs.Container.State.Access.encode_encrypted text_eq anchor_rs.Container.Codec.random
    encode anchor_rs.Container.Codec.box_of anchor_rs.Container.Codec.seal_body
    anchor_rs.Container.Codec.signer_info_of anchor_rs.Container.Codec.sign_compressed
revoked_output = refl

revoke_access-unwraps_none_example :
    (body : EncryptedBody) × (info : Option SignerInfo) × (parse toy (form (store_of 1 ∷ []))
      ≡ success (record { body = encrypted_body body; signer_info = info }))
    × (map (λ store. store.public_key) body.key_stores
        ≡ map toy.public_key_with_type revoked.principals)
    × (unwrap_symmetric_key toy body.key_stores (bob ∷ []) ≡ failure no_matching_key)
revoke_access-unwraps_none_example =
    revoke_access-unwraps_none toy toy-Lawful bob_key shared revoked seeds (form (store_of 1 ∷ []))
      bob revoked_state revoked_output refl

merged_both : merge_principals toy (store_of 1 ∷ store_of 2 ∷ []) (bob ∷ alice ∷ []) ≡ success both
unfolding merge_principals anchor_rs.Container.Merge.account_for
    anchor_rs.Container.Merge.substitute anchor_rs.Container.Merge.position text_eq
    anchor_rs.Container.Merge.swap_remove
merged_both = refl

-- A signed container whose signature has been checked and whose payload is then replaced.
abbrev replaced : EncryptedContainer toy
replaced = record {
  encrypted = false;
  principals = [];
  may_access_plaintext = true;
  signer = some alice;
  parsed_signer_info = some signed_by_alice;
  plaintext = some (5 ∷ []);
  encoded = none;
}

replaced_reached :
    set_plaintext toy
      (5 ∷ [])
      (verify_signature toy seeds (from_plaintext toy (7 ∷ 8 ∷ []) none signing)).0
    ≡ replaced
unfolding set_plaintext verify_signature anchor_rs.Container.State.Access.ensure_signer_info_parsed
    from_plaintext anchor_rs.Container.State.Access.compute_encoded
    anchor_rs.Container.State.Access.encode_plaintext encode anchor_rs.Container.Codec.box_of
    anchor_rs.Container.Codec.signer_info_of anchor_rs.Container.Codec.sign_compressed parse
    anchor_rs.Container.Codec.Opening.parse_package anchor_rs.Container.Codec.require
    anchor_rs.Container.Codec.to_u64 anchor_rs.Container.Codec.Opening.body_of
    anchor_rs.Container.State.capture anchor_rs.Container.State.decode_from_encoded
    anchor_rs.Container.Codec.Opening.decode_body anchor_rs.Container.State.compute_and_set_key_info
    anchor_rs.Container.State.align anchor_rs.Container.Codec.Opening.compressed_of
    anchor_rs.Container.Codec.Opening.verify_info anchor_rs.Container.Codec.assert_digest_supported
    anchor_rs.Container.Codec.assert_signature_supported
    anchor_rs.Container.Codec.account_from_public_key anchor_rs.Container.Codec.decompress
    is_encrypted anchor_rs.Container.Codec.is_encrypted_body text_eq anchor_rs.Container.State.new
replaced_reached = refl

replaced_encodes : is_some ((get_encoded toy seeds replaced).0.encoded) ≡ true
unfolding get_encoded anchor_rs.Container.State.Access.compute_encoded
    anchor_rs.Container.State.Access.encode_plaintext encode anchor_rs.Container.Codec.box_of
    anchor_rs.Container.Codec.signer_info_of anchor_rs.Container.Codec.sign_compressed
replaced_encodes = refl

note_form :
    (get_encoded toy seeds note).1
    ≡ success
        (record { version = pos 1; container = plaintext (120 ∷ 7 ∷ 8 ∷ []); signer_info = none })
unfolding get_encoded anchor_rs.Container.State.Access.compute_encoded from_plaintext
    anchor_rs.Container.State.Access.encode_plaintext encode anchor_rs.Container.Codec.box_of
    anchor_rs.Container.Codec.signer_info_of
note_form = refl

from_encrypted_plain :
    from_encrypted toy
      (record { version = pos 1; container = plaintext (120 ∷ 7 ∷ 8 ∷ []); signer_info = none })
      both
    ≡ failure encryption_required
unfolding from_encrypted anchor_rs.Container.State.compute_and_set_key_info
    anchor_rs.Container.State.set_encoded parse anchor_rs.Container.Codec.Opening.parse_package
    anchor_rs.Container.Codec.require anchor_rs.Container.Codec.to_u64
    anchor_rs.Container.Codec.Opening.body_of
from_encrypted_plain = refl
