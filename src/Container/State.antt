-- ===== src/Container/State.antt =====
-- `EncryptedContainer` of keetanetwork-anchor/src/encrypted_container/mod.rs. A method that mutates
-- the container is a function to its new state and its result; what it changed before an error
-- stays changed.
pub mod Access
pub mod Invariant
pub mod Encoded
pub mod Lifecycle
use anchor_rs.Prelude.{
  ℕ, Bool, true, false, not, ◌&&◌, ◌||◌, Option, none, some, is_some, unwrap_or, List, [], ◌∷◌,
  ◌++◌, is_empty, text_eq, if◌then◌else◌,
}
use anchor_rs.Prelude.Outcomes.{Outcome, success, failure, ok_or}
use anchor_rs.Container.{
  Bytes, ContainerError, not_signed, no_plaintext_available, no_encoded_data_available,
  plaintext_disabled, encryption_required, invalid_principals, access_management_not_allowed,
  KeyStore, SignerInfo, Crypto, Result,
}
use anchor_rs.Container.Codec.{
  CipherMaterial, random, BareContainer, ContainerBody, plaintext_body, encrypted_body,
  is_encrypted, is_encrypted_body, DecodedBody, EncryptedBody, Encryption, encode,
  account_from_public_key,
}
use anchor_rs.Container.Codec.Opening.{parse, decode_body, verify_info}
use anchor_rs.Container.Merge.{merge_principals}

-- The outcomes of the two draws of random bytes that sealing a body makes.
pub record Seeds : Type 0 where
  pub key_seed : Option Bytes
  pub iv_seed : Option Bytes

module _ (crypto : Crypto) where
  open crypto use {GenericAccount, public_key_with_type, Blob}

  pub record EncryptedContainer : Type 0 where
    pub encrypted : Bool
    pub principals : List GenericAccount
    pub may_access_plaintext : Bool
    pub signer : Option GenericAccount
    pub parsed_signer_info : Option SignerInfo
    pub plaintext : Option Bytes
    pub encoded : Option Blob

  pub record FromPlaintextOptions : Type 0 where
    pub locked : Option Bool
    pub signer : Option GenericAccount

  -- A method of `&mut self`.
  abbrev pub Method : Type 0 → Type 0
  Method A = EncryptedContainer → EncryptedContainer × Result A

  abbrev pub resume :
      {A B : Type 0}
      → (A → Method B)
      → EncryptedContainer × Result A
      → EncryptedContainer × Result B
  resume f (s, success a) = f a s
  resume f (s, failure e) = (s, failure e)

infixl 5 ◌>>=◌
abbrev pub ◌>>=◌ :
    {crypto : Crypto} {A B : Type 0} → Method crypto A → (A → Method crypto B) → Method crypto B
◌>>=◌ {crypto} m f s = resume crypto f (m s)

module _ (crypto : Crypto) where
  open crypto use {GenericAccount, public_key_with_type, Blob}

  abbrev pub of_result : {A : Type 0} → Result A → Method crypto A
  of_result r s = (s, r)

  -- `new`
  unfoldable pub new :
      Option (List GenericAccount) → Option GenericAccount → EncryptedContainer crypto
  new principals signer = record {
    encrypted = is_some principals;
    principals = unwrap_or principals [];
    may_access_plaintext = true;
    signer = signer;
    parsed_signer_info = none;
    plaintext = some [];
    encoded = none;
  }

  unfoldable pub set_plaintext : Bytes → EncryptedContainer crypto → EncryptedContainer crypto
  set_plaintext payload s = record s { plaintext = some payload; encoded = none }

  unfoldable pub set_encoded : Blob → EncryptedContainer crypto → EncryptedContainer crypto
  set_encoded encoded s = record s { encoded = some encoded; plaintext = none }

  unfoldable pub disable_plaintext : EncryptedContainer crypto → EncryptedContainer crypto
  disable_plaintext s = record s { may_access_plaintext = false }

  unfoldable pub from_plaintext :
      Bytes → Option (List GenericAccount) → FromPlaintextOptions crypto → EncryptedContainer crypto
  unfolding new set_plaintext disable_plaintext
  from_plaintext payload principals options = set_plaintext payload (
      if unwrap_or options.locked (is_some principals)
      then disable_plaintext (new principals options.signer)
      else new principals options.signer)

  unfoldable pub is_signed : EncryptedContainer crypto → Bool
  is_signed s = is_some s.signer || is_some s.parsed_signer_info

  -- `principals`
  unfoldable pub principals_of : EncryptedContainer crypto → Result (List GenericAccount)
  principals_of s =
      if not s.encrypted then failure access_management_not_allowed else success s.principals

  abbrev pub parse_encoded : Option Blob → Result BareContainer
  parse_encoded none = failure no_encoded_data_available
  parse_encoded (some encoded) = parse crypto encoded

  abbrev pub merged : Result (List GenericAccount) → Method crypto Unit
  merged (success principals) s =
      (record s { principals = principals; encrypted = true }, success tt)
  merged (failure e) s = (record s { principals = [] }, failure e)

  unfoldable pub align : ContainerBody → Method crypto Unit
  align (encrypted_body body) s =
      if not s.encrypted
      then (s, failure invalid_principals)
      else merged (merge_principals crypto body.key_stores s.principals) s
  align (plaintext_body _) s = (record s { encrypted = false; principals = [] }, success tt)

  unfoldable pub capture : Option SignerInfo → Method crypto Unit
  capture none s = (s, success tt)
  capture (some info) s = (record s { parsed_signer_info = some info }, success tt)

  abbrev pub assert_encrypted : Bool → BareContainer → Result Unit
  assert_encrypted must_be_encrypted bare =
      if must_be_encrypted && not (is_encrypted bare)
      then failure encryption_required
      else success tt

  unfoldable pub compute_and_set_key_info : Bool → Method crypto BareContainer
  unfolding is_encrypted
  compute_and_set_key_info must_be_encrypted s =
      (do
        bare ← of_result (parse_encoded s.encoded)
        _ ← of_result (assert_encrypted must_be_encrypted bare)
        _ ← align bare.body
        _ ← capture bare.signer_info
        of_result (success bare))
        s

  -- The principals that `decode_from_encoded` passes on.
  abbrev pub keys_for : BareContainer → EncryptedContainer crypto → List GenericAccount
  keys_for bare s = if is_encrypted bare then s.principals else []

  abbrev pub open_bare : BareContainer → Method crypto DecodedBody
  open_bare bare s = (s, decode_body crypto bare.body (keys_for bare s))

  unfoldable pub decode_from_encoded : Method crypto DecodedBody
  unfolding is_encrypted
  decode_from_encoded s =
      if not (is_some s.encoded)
      then (s, failure no_encoded_data_available)
      else (do bare ← compute_and_set_key_info s.encrypted; open_bare bare) s

  abbrev pub keep_plaintext : Bytes → Method crypto Unit
  keep_plaintext payload s = (record s { plaintext = some payload }, success tt)

  unfoldable pub compute_plaintext : Method crypto Unit
  compute_plaintext s =
      if is_some s.plaintext
      then (s, success tt)
      else (do decoded ← decode_from_encoded; keep_plaintext decoded.plaintext) s

  abbrev pub restored :
      EncryptedContainer crypto × Result BareContainer → Result (EncryptedContainer crypto)
  restored (s, success bare) = success s
  restored (s, failure e) = failure e

  unfoldable pub from_blob :
      Bool → Blob → Option (List GenericAccount) → Result (EncryptedContainer crypto)
  from_blob must_be_encrypted encoded principals =
      restored
        (compute_and_set_key_info must_be_encrypted (set_encoded encoded (new principals none)))

  unfoldable pub from_encoded :
      Blob → Option (List GenericAccount) → Result (EncryptedContainer crypto)
  unfolding from_blob
  from_encoded = from_blob false

  unfoldable pub from_encrypted : Blob → List GenericAccount → Result (EncryptedContainer crypto)
  unfolding from_blob
  from_encrypted encoded principals = from_blob true encoded (some principals)
