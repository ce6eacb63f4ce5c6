-- ===== src/Container/State/Lifecycle.antt =====
-- Runs of the public methods of `EncryptedContainer`
-- (keetanetwork-anchor/src/encrypted_container/mod.rs) in any order.
pub mod Sound
pub mod Runs
use anchor_rs.Prelude.{
  Bool, true, false, ◌||◌, Option, none, some, is_some, List, [], ◌∷◌, ◌≡◌, refl, Text,
}
use anchor_rs.Prelude.Outcomes.{Outcome, success, failure}
use anchor_rs.Container.{Bytes, Crypto}
use anchor_rs.Container.Codec.{BareContainer, is_encrypted}
use anchor_rs.Container.Codec.Opening.{parse}
use anchor_rs.Container.State.{Seeds, EncryptedContainer, set_plaintext, disable_plaintext}
use anchor_rs.Container.State.Access.{
  get_plaintext, get_encoded, grant_access, revoke_access, take_signing_account, verify_signature,
}

module _ (crypto : Crypto) where
  open crypto use {GenericAccount}

  -- The public methods that may change a container.
  pub data Command : Type 0 where
    replace_plaintext : Bytes → Command
    lock read_plaintext take_signer : Command
    write_encoded check_signature : Seeds → Command
    grant : List GenericAccount → Command
    revoke : Bytes → Command

  unfoldable pub perform : Command → EncryptedContainer crypto → EncryptedContainer crypto
  perform (replace_plaintext payload) s = set_plaintext crypto payload s
  perform lock s = disable_plaintext crypto s
  perform read_plaintext s = (get_plaintext crypto s).0
  perform take_signer s = (take_signing_account crypto s).0
  perform (write_encoded seeds) s = (get_encoded crypto seeds s).0
  perform (check_signature seeds) s = (verify_signature crypto seeds s).0
  perform (grant accounts) s = (grant_access crypto accounts s).0
  perform (revoke key) s = (revoke_access crypto key s).0

  unfoldable pub perform_all : List Command → EncryptedContainer crypto → EncryptedContainer crypto
  perform_all [] s = s
  perform_all (command ∷ commands) s = perform_all commands (perform command s)

  -- What holds of a container between two calls.
  pub record Inv (s : EncryptedContainer crypto) : Type 0 where
    pub present : (is_some s.plaintext || is_some s.encoded) ≡ true
    pub plain_alone : s.encrypted ≡ false → s.principals ≡ []
    pub aligned :
        (blob : crypto.Blob) (bare : BareContainer)
        → s.encoded ≡ some blob
        → parse crypto blob ≡ success bare
        → is_encrypted bare ≡ s.encrypted
