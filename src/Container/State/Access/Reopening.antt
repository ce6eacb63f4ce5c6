-- ===== src/Container/State/Access/Reopening.antt =====
-- Restoring an `EncryptedContainer` (keetanetwork-anchor/src/encrypted_container/mod.rs) from its
-- encoded form.
use mathlib.Core.List.{Perm}
use mathlib.Core.List.Perm
use anchor_rs.Prelude.{
  zero, suc, ℕ, Bool, true, false, Option, none, some, List, [], ◌∷◌, any, map, length, ◌≡◌, refl,
  sym, ◌∙◌, ap, subst, inl, inr, All, Any, Option-cases, arith,
}
use anchor_rs.Prelude.Outcomes.{success, ok_or, ok_or-success, bind-success, success_injective}
use anchor_rs.Container.{Bytes, crypto_error, KeyStore, SignerInfo, Crypto}
use anchor_rs.Container.Codec.{
  aes_iv_len, CipherMaterial, prepend, first_chunk, random, encrypted_body, EncryptedBody,
  is_encrypted, is_encrypted_body, DecodedBody, account_from_public_key,
}
use anchor_rs.Container.Codec.Opening.{parse, decode_body}
use anchor_rs.Container.Codec.Laws.{Lawful, Wraps}
use anchor_rs.Container.Merge.{
  position, swap_remove, substitute, has_key, account_for, merge_principals,
}
use anchor_rs.Container.Merge.Laws.{
  any-Perm, merge_principals-keys, merge_principals-Perm, merge_principals-opens, opens,
  lacks_private_key,
}
use anchor_rs.Container.State.{
  EncryptedContainer, align, capture, compute_and_set_key_info, decode_from_encoded,
  compute_plaintext,
}
use anchor_rs.Container.State.Access.{get_plaintext}

prepend-some :
    (b : ℕ) (o : Option Bytes) (chunk : Bytes)
    → prepend b o ≡ some chunk
    → (rest : Bytes) × (o ≡ some rest) × (chunk ≡ b ∷ rest)
prepend-some b none chunk h = cc
prepend-some b (some rest) chunk h = (rest, refl, cc)

first_chunk-length : (n : ℕ) (bs chunk : Bytes) → first_chunk n bs ≡ some chunk → length chunk ≡ n
unfolding first_chunk
first_chunk-length zero bs [] h = refl
first_chunk-length zero bs (b ∷ chunk) h = cc
first_chunk-length (suc n) [] chunk h = cc
first_chunk-length (suc n) (b ∷ bs) chunk h =
    let (rest, r, e) = prepend-some b (first_chunk n bs) chunk h in
    rw e (ap suc (first_chunk-length n bs rest r))

pub random-length :
    (key_seed iv_seed : Option Bytes) (material : CipherMaterial)
    → random key_seed iv_seed ≡ success material
    → length material.iv ≡ aes_iv_len
unfolding random
random-length key_seed iv_seed material h =
    let (key, k, h1) = bind-success (ok_or crypto_error key_seed) h in
    let (seed, s, h2) = bind-success (ok_or crypto_error iv_seed) h1 in
    let (iv, i, h3) = bind-success (ok_or crypto_error (first_chunk aes_iv_len seed)) h2 in
    rw (← success_injective h3)
      (first_chunk-length aes_iv_len seed iv (ok_or-success crypto_error _ iv i))

module _ (crypto : Crypto) (lawful : Lawful crypto) where
  open crypto use {GenericAccount, public_key_with_type, Blob}

  read_anew :
      (key : Bytes) (a public : GenericAccount) (provided : List GenericAccount)
      → public_key_with_type a ≡ key
      → crypto.from_public_key (public_key_with_type a) ≡ some public
      → substitute crypto key provided none ≡ success (public, provided)
  unfolding substitute account_from_public_key
  read_anew key a public provided k p =
      let q : crypto.from_public_key key ≡ some public = sym (ap crypto.from_public_key k) ∙ p in
      rw q refl

  account_for-total :
      (key : Bytes) (provided : List GenericAccount) (a : GenericAccount)
      → public_key_with_type a ≡ key
      → (r : GenericAccount × List GenericAccount) × (account_for crypto key provided ≡ success r)
  unfolding account_for substitute account_from_public_key
  account_for-total key provided a k =
      let (public, p) = lawful.reads_public_key a in
      elim (Option-cases (position (has_key crypto key) provided)) [
        | inl n ↦ ((public, provided), rw n (read_anew key a public provided k p))
        | inr ((i, y), s) ↦ ((y, swap_remove provided i), rw s refl)
      ]

  -- The stores of a sealed box name accounts, so merging them succeeds.
  pub merge_principals-total :
      (key : Bytes) (stores : List KeyStore) (provided : List GenericAccount)
      → All (Wraps crypto key) stores
      → (merged : List GenericAccount) × (merge_principals crypto stores provided ≡ success merged)
  unfolding merge_principals
  merge_principals-total key [] provided w = ([], refl)
  merge_principals-total key (store ∷ stores) provided (w, ws) =
      let ((a, rest), f) = account_for-total store.public_key provided w.account w.named in
      let (merged, m) = merge_principals-total key stores rest ws in (a ∷ merged, rw (f, m) refl)

  -- Reading a sealed form into a sealed container.
  pub key_info-sealed :
      (must : Bool) (s : EncryptedContainer crypto) (blob : Blob) (body : EncryptedBody)
      (info : Option SignerInfo) (merged : List GenericAccount)
      → s.encoded ≡ some blob
      → s.encrypted ≡ true
      → parse crypto blob ≡ success (record { body = encrypted_body body; signer_info = info })
      → merge_principals crypto body.key_stores s.principals ≡ success merged
      → let (t, r) = compute_and_set_key_info crypto must s in
        (r ≡ success (record { body = encrypted_body body; signer_info = info }))
        × (t.principals ≡ merged)
        × (t.encrypted ≡ true)
        × (t.encoded ≡ some blob)
        × (t.plaintext ≡ s.plaintext)
        × (t.may_access_plaintext ≡ s.may_access_plaintext)
  unfolding compute_and_set_key_info align capture is_encrypted is_encrypted_body
  key_info-sealed must s blob body info merged e f p m = ground arith

  -- Reading the plaintext of a container that has only a sealed form.
  pub get_plaintext-sealed :
      (s : EncryptedContainer crypto) (blob : Blob) (body : EncryptedBody)
      (info : Option SignerInfo) (merged : List GenericAccount) (decoded : DecodedBody)
      → s.encoded ≡ some blob
      → s.encrypted ≡ true
      → s.plaintext ≡ none
      → s.may_access_plaintext ≡ true
      → parse crypto blob ≡ success (record { body = encrypted_body body; signer_info = info })
      → merge_principals crypto body.key_stores s.principals ≡ success merged
      → decode_body crypto (encrypted_body body) merged ≡ success decoded
      → (get_plaintext crypto s).1 ≡ success decoded.plaintext
  unfolding get_plaintext compute_plaintext decode_from_encoded is_encrypted is_encrypted_body
  get_plaintext-sealed s blob body info merged decoded e f n a p m d =
      ground (arith, key_info-sealed s.encrypted s blob body info merged e f p m)

  -- Merging twice still leaves an account that opens.
  pub merged_twice :
      (key : Bytes) (stores : List KeyStore) (openers merged again : List GenericAccount)
      → Any (λ store. store.public_key ≡ key) stores
      → any (has_key crypto key) openers ≡ true
      → any (lacks_private_key crypto lawful) openers ≡ false
      → merge_principals crypto stores openers ≡ success merged
      → merge_principals crypto stores merged ≡ success again
      → any (opens crypto lawful key) again ≡ true
  merged_twice key stores openers merged again named k p m n =
      let same =
        subst (λ keys. Perm (map public_key_with_type merged) keys)
          (merge_principals-keys crypto lawful stores openers merged m) (Perm.refl _) in
      any-Perm (opens crypto lawful key) again merged
        (merge_principals-Perm crypto lawful stores merged again same n)
      ∙ merge_principals-opens crypto lawful key stores openers merged named k p m
