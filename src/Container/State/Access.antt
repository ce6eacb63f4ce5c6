-- ===== src/Container/State/Access.antt =====
-- The encoding, the access list and the signature of an `EncryptedContainer`:
-- keetanetwork-anchor/src/encrypted_container/mod.rs.
pub mod Granting
pub mod Reopening
pub mod RoundTrip
use anchor_rs.Prelude.{
  ℕ, Bool, true, false, not, ◌&&◌, ◌||◌, Option, none, some, is_some, unwrap_or, List, [], ◌∷◌,
  ◌++◌, is_empty, text_eq, if◌then◌else◌,
}
use anchor_rs.Prelude.Outcomes.{Outcome, success, failure, ok_or}
use anchor_rs.Container.{
  Bytes, ContainerError, not_signed, no_plaintext_available, no_encoded_data_available,
  plaintext_disabled, encryption_required, access_management_not_allowed, SignerInfo, Crypto,
  Result,
}
use anchor_rs.Container.Codec.{
  CipherMaterial, random, BareContainer, DecodedBody, Encryption, encode, account_from_public_key,
}
use anchor_rs.Container.Codec.Opening.{parse, verify_info}
use anchor_rs.Container.State.{
  Seeds, EncryptedContainer, Method, ◌>>=◌, of_result, compute_plaintext, parse_encoded, capture,
  decode_from_encoded,
}

module _ (crypto : Crypto) where
  open crypto use {GenericAccount, public_key_with_type, Blob}

  unfoldable pub get_plaintext : Method crypto Bytes
  get_plaintext s =
      if not s.may_access_plaintext
      then (s, failure plaintext_disabled)
      else (do _ ← compute_plaintext crypto; cached_plaintext) s
    where
      cached_plaintext : Method crypto Bytes
      cached_plaintext s = (s, ok_or no_plaintext_available s.plaintext)

  abbrev pub encode_payload : Option GenericAccount → Option Bytes → Result Blob
  encode_payload signer none = failure no_plaintext_available
  encode_payload signer (some payload) = encode crypto payload none signer

  unfoldable pub encode_plaintext : EncryptedContainer crypto → Result Blob
  encode_plaintext s = encode_payload s.signer s.plaintext

  abbrev pub seal :
      Option GenericAccount → List GenericAccount → Bytes → Result CipherMaterial → Result Blob
  seal signer principals payload (failure e) = failure e
  seal signer principals payload (success material) =
      encode crypto payload (some (record { principals = principals; material = material })) signer

  abbrev pub seal_payload :
      Seeds → Option GenericAccount → List GenericAccount → Option Bytes → Result Blob
  seal_payload seeds signer principals none = failure no_plaintext_available
  seal_payload seeds signer principals (some payload) =
      if is_empty principals
      then failure encryption_required
      else seal signer principals payload (random seeds.key_seed seeds.iv_seed)

  unfoldable pub encode_encrypted : Seeds → EncryptedContainer crypto → Result Blob
  encode_encrypted seeds s = seal_payload seeds s.signer s.principals s.plaintext

  abbrev pub keep_encoded : Blob → Method crypto Unit
  keep_encoded encoded s = (record s { encoded = some encoded }, success tt)

  unfoldable pub compute_encoded : Seeds → Method crypto Unit
  compute_encoded seeds s =
      if is_some s.encoded
      then (s, success tt)
      else (do
        computed ←
            of_result crypto (if s.encrypted then encode_encrypted seeds s else encode_plaintext s)
        keep_encoded computed)
          s

  abbrev pub cached_encoded : Method crypto Blob
  cached_encoded s = (s, ok_or no_encoded_data_available s.encoded)

  unfoldable pub get_encoded : Seeds → Method crypto Blob
  get_encoded seeds = do _ ← compute_encoded seeds; cached_encoded

  unfoldable pub assert_access_management_allowed : Method crypto Unit
  assert_access_management_allowed s =
      (s, if s.encrypted then success tt else failure access_management_not_allowed)

  abbrev pub extend : List GenericAccount → Method crypto Unit
  extend accounts s =
      (record s { encoded = none; principals = s.principals ++ accounts }, success tt)

  unfoldable pub grant_access : List GenericAccount → Method crypto Unit
  grant_access accounts = do
    _ ← compute_plaintext crypto
    _ ← assert_access_management_allowed
    extend accounts

  -- `Vec::retain` of the principals with another key.
  unfoldable pub retain_others : Bytes → List GenericAccount → List GenericAccount
  retain_others target [] = []
  retain_others target (principal ∷ principals) =
      let rest = retain_others target principals in
      if text_eq (public_key_with_type principal) target then rest else principal ∷ rest

  abbrev pub remove_key : Bytes → Method crypto Unit
  remove_key target s =
      (record s { encoded = none; principals = retain_others target s.principals }, success tt)

  unfoldable pub revoke_access : Bytes → Method crypto Unit
  unfolding retain_others
  revoke_access target = do
    _ ← compute_plaintext crypto
    _ ← assert_access_management_allowed
    remove_key target

  abbrev pub some_account : Result GenericAccount → Result (Option GenericAccount)
  some_account (success account) = success (some account)
  some_account (failure e) = failure e

  unfoldable pub signing_account : EncryptedContainer crypto → Result (Option GenericAccount)
  signing_account s = by_signer s.signer s.parsed_signer_info
    where
      by_signer : Option GenericAccount → Option SignerInfo → Result (Option GenericAccount)
      by_signer (some signer) info =
          some_account (account_from_public_key crypto (public_key_with_type signer))
      by_signer none (some info) = some_account (account_from_public_key crypto info.sid)
      by_signer none none = success none

  -- `signer.take()` comes first, so an error leaves no signer.
  unfoldable pub take_signing_account : Method crypto (Option GenericAccount)
  take_signing_account s = taken s.signer
    where
      replaced :
          GenericAccount
          → Result GenericAccount
          → EncryptedContainer crypto × Result (Option GenericAccount)
      replaced signer (success public_only) =
          (record s { signer = some public_only }, success (some signer))
      replaced signer (failure e) = (record s { signer = none }, failure e)

      taken : Option GenericAccount → EncryptedContainer crypto × Result (Option GenericAccount)
      taken none = (s, success none)
      taken (some signer) =
          replaced signer (account_from_public_key crypto (public_key_with_type signer))

  abbrev pub parse_signer_info : Method crypto Unit
  parse_signer_info s =
      (do bare ← of_result crypto (parse_encoded crypto s.encoded); capture crypto bare.signer_info)
        s

  unfoldable pub ensure_signer_info_parsed : Seeds → Method crypto Unit
  ensure_signer_info_parsed seeds s =
      if not (not (is_some s.parsed_signer_info) && is_some s.signer)
      then (s, success tt)
      else (do _ ← compute_encoded seeds; parse_signer_info) s

  abbrev pub signer_info_present : Method crypto SignerInfo
  signer_info_present s = (s, ok_or not_signed s.parsed_signer_info)

  unfoldable pub verify_signature : Seeds → Method crypto Bool
  verify_signature seeds = do
    _ ← ensure_signer_info_parsed seeds
    signer_info ← signer_info_present
    decoded ← decode_from_encoded crypto
    of_result crypto (verify_info crypto signer_info decoded.compressed)
