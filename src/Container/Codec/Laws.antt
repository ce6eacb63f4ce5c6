-- ===== src/Container/Codec/Laws.antt =====
-- What the container relies on in the code of other crates, and inversion lemmas for its codec.
use anchor_rs.Prelude.{
  ℕ, zero, suc, true, Option, some, List, [], ◌∷◌, ◌++◌, length, ◌≡◌, refl, subst, All, Any, pos,
  inl, inr, arith,
}
use anchor_rs.Prelude.Outcomes.{success, failure, ok_or, ok_or-success, bind-success}
use anchor_rs.Container.{
  Bytes, KeyStore, ContainerBox, SignerInfo, ContainerPackage, Crypto, Result, crypto_error,
}
use anchor_rs.Container.Codec.{
  container_version, get_from, wrap_keys, Encryption, box_of, signer_info_of, encode,
}

-- The documented behaviour of the DER codec, zlib, AES-CBC, and the accounts' cryptography.
pub record Lawful (crypto : Crypto) : Type 0 where
  pub decodes :
      (pkg : ContainerPackage) (blob : crypto.Blob)
      → crypto.der_encode pkg ≡ some blob
      → crypto.der_decode blob ≡ some pkg
  pub inflates :
      (payload : Bytes)
      → crypto.decompress_to_vec_zlib (crypto.compress_to_vec_zlib payload) ≡ some payload
  pub deciphers :
      (key iv message output : Bytes)
      → crypto.aes_encrypt key iv message ≡ some output
      → (rest : Bytes) × (output ≡ iv ++ rest) × (crypto.aes_decrypt key output ≡ some message)
  pub unwraps :
      (a b : crypto.GenericAccount) (key wrapped : Bytes)
      → crypto.encrypt a key ≡ some wrapped
      → crypto.public_key_with_type b ≡ crypto.public_key_with_type a
      → crypto.has_private_key b ≡ true
      → crypto.decrypt b wrapped ≡ some key
  pub unwraps_only :
      (a b : crypto.GenericAccount) (key wrapped other : Bytes)
      → crypto.encrypt a key ≡ some wrapped
      → crypto.public_key_with_type b ≡ crypto.public_key_with_type a
      → crypto.decrypt b wrapped ≡ some other
      → other ≡ key
  pub reads_public_key :
      (a : crypto.GenericAccount)
      → (public : crypto.GenericAccount) × (crypto.from_public_key (crypto.public_key_with_type a)
          ≡ some public)
  pub keeps_public_key :
      (key : Bytes) (a : crypto.GenericAccount)
      → crypto.from_public_key key ≡ some a
      → crypto.public_key_with_type a ≡ key
  pub verifies :
      (a public : crypto.GenericAccount) (digest signature : Bytes)
      → crypto.sign a digest ≡ some signature
      → crypto.public_key_with_type public ≡ crypto.public_key_with_type a
      → crypto.verify public digest signature ≡ true

pub get_from-append : (n : ℕ) (bs cs : Bytes) → length bs ≡ n → get_from n (bs ++ cs) ≡ some cs
unfolding get_from
get_from-append zero [] cs h = refl
get_from-append (suc n) [] cs h = absurd (omega (arith, h))
get_from-append zero (b ∷ bs) cs h = absurd (omega (arith, h))
get_from-append (suc n) (b ∷ bs) cs h = get_from-append n bs cs (omega (arith, h))

abbrev stores_of : Result (List KeyStore) → List KeyStore
stores_of (success stores) = stores
stores_of (failure e) = []

module _ (crypto : Crypto) where
  open crypto use {GenericAccount, public_key_with_type, has_private_key, encrypt, Blob, der_encode}

  -- The store holds `key`, wrapped for the account it names.
  pub record Wraps (key : Bytes) (store : KeyStore) : Type 0 where
    pub account : GenericAccount
    pub named : public_key_with_type account ≡ store.public_key
    pub wrapped : encrypt account key ≡ some store.encrypted_symmetric_key

  -- A private key of the account that `public_key` names is among the openers.
  abbrev pub HasOpener : List GenericAccount → Bytes → Type 0
  HasOpener openers key =
      Any (λ b. (public_key_with_type b ≡ key) × (has_private_key b ≡ true)) openers

  unfoldable pub CanOpen : (principals openers : List GenericAccount) → Type 0
  CanOpen principals openers = Any (λ a. HasOpener openers (public_key_with_type a)) principals

  -- The parts of an encoding.
  pub encode-success :
      (payload : Bytes) (encryption : Option (Encryption crypto)) (signer : Option GenericAccount)
      (blob : Blob)
      → encode crypto payload encryption signer ≡ success blob
      → (box : ContainerBox) × (info : Option SignerInfo) × (box_of crypto
            (crypto.compress_to_vec_zlib payload)
            encryption
          ≡ success box)
        × (signer_info_of crypto (crypto.compress_to_vec_zlib payload) signer ≡ success info)
        × (der_encode
              (record { version = pos container_version; container = box; signer_info = info })
            ≡ some blob)
  unfolding encode
  encode-success payload encryption signer blob h =
      let (box, b, h1) = bind-success (box_of crypto _ encryption) h in
      let (info, i, h2) = bind-success (signer_info_of crypto _ signer) h1 in
      (box, info, b, i, ok_or-success _ _ _ h2)

  pub wrap_keys-Wraps :
      (key : Bytes) (principals : List GenericAccount) (stores : List KeyStore)
      → wrap_keys crypto key principals ≡ success stores
      → All (Wraps key) stores
  unfolding wrap_keys
  wrap_keys-Wraps key [] stores h = subst (λ o. All (Wraps key) (stores_of o)) h tt
  wrap_keys-Wraps key (principal ∷ principals) stores h =
      let (wrapped, w, h1) = bind-success (ok_or crypto_error (encrypt principal key)) h in
      let (keys, k, h2) = bind-success (wrap_keys crypto key principals) h1 in
      subst (λ o. All (Wraps key) (stores_of o)) h2
        (
          record {
            account = principal;
            named = refl;
            wrapped = ok_or-success crypto_error _ wrapped w;
          },
          wrap_keys-Wraps key principals keys k,
        )

  -- The stores name the principals, in their order.
  pub wrap_keys-openers :
      (key : Bytes) (openers principals : List GenericAccount) (stores : List KeyStore)
      → wrap_keys crypto key principals ≡ success stores
      → CanOpen principals openers
      → Any (λ store. HasOpener openers store.public_key) stores
  unfolding wrap_keys CanOpen
  wrap_keys-openers key openers [] stores h m = absurd m
  wrap_keys-openers key openers (principal ∷ principals) stores h m =
      let (wrapped, w, h1) = bind-success (ok_or crypto_error (encrypt principal key)) h in
      let (keys, k, h2) = bind-success (wrap_keys crypto key principals) h1 in
      subst (λ o. Any (λ store. HasOpener openers store.public_key) (stores_of o)) h2
        (elim m [ inl e ↦ inl e | inr e ↦ inr (wrap_keys-openers key openers principals keys k e) ])
