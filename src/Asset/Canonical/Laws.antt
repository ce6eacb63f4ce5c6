-- ===== src/Asset/Canonical/Laws.antt =====
-- Canonical forms of assets: keetanetwork-anchor-client/src/services/asset_movement/asset.rs.
use anchor_rs.Prelude.{
  ℕ, suc, ◌≡◌, inl, inr, refl, sym, ap, subst, ◌∙◌, Bool, Bool-cases, Option-cases, true, false,
  ◌&&◌, none, Text, List, [], ◌∷◌, ◌++◌, map, leb, strip_prefix, strip_prefix_sound,
  strip_prefix-append, if◌then◌else◌, arith, ◌+◌,
}
use anchor_rs.Asset.Canonical.{
  evm_prefix, to_ascii_uppercase, nibble, recase, contains_colon, eip55_checksum, recased,
  canonicalize_asset,
}

unfoldable pub to_ascii_lowercase : ℕ → ℕ
to_ascii_lowercase c = if leb 65 c && leb c 90 then c + 32 else c

lower-upper : (c : ℕ) → to_ascii_lowercase (to_ascii_uppercase c) ≡ to_ascii_lowercase c
unfolding to_ascii_lowercase to_ascii_uppercase
lower-upper c = ground arith

lower-choice :
    (b : Bool) (c : ℕ)
    → to_ascii_lowercase (if b then to_ascii_uppercase c else c) ≡ to_ascii_lowercase c
lower-choice true c = lower-upper c
lower-choice false c = refl

map-recase :
    (hash : List ℕ) (position : ℕ) (s : Text)
    → map to_ascii_lowercase (recase hash position s) ≡ map to_ascii_lowercase s
unfolding recase
map-recase hash position [] = refl
map-recase hash position (c ∷ s) =
    rw (lower-choice (leb 8 (nibble hash position)) c, map-recase hash (suc position) s) refl

module _ (to_lowercase : Text → Text) (keccak256 : Text → List ℕ)
    (lower-idempotent : (s : Text) → to_lowercase (to_lowercase s) ≡ to_lowercase s)
    (lower-ascii : (s t : Text)
      → map to_ascii_lowercase s ≡ map to_ascii_lowercase t
      → to_lowercase s ≡ to_lowercase t)
    (lower-colon : (s : Text) → contains_colon (to_lowercase s) ≡ contains_colon s) where
  lower-checksum :
      (address : Text)
      → to_lowercase (eip55_checksum to_lowercase keccak256 address) ≡ to_lowercase address
  unfolding eip55_checksum
  lower-checksum address =
      lower-ascii (eip55_checksum to_lowercase keccak256 address) (to_lowercase address)
        (map-recase (keccak256 (to_lowercase address)) 0 (to_lowercase address))
      ∙ lower-idempotent address

  eip55_checksum-idempotent :
      (address : Text)
      → eip55_checksum to_lowercase keccak256 (eip55_checksum to_lowercase keccak256 address)
        ≡ eip55_checksum to_lowercase keccak256 address
  unfolding eip55_checksum
  eip55_checksum-idempotent address =
      ap (λ lower. recase (keccak256 lower) 0 lower) (lower-checksum address)

  canonicalize-plain :
      (input : Text)
      → strip_prefix evm_prefix input ≡ none
      → canonicalize_asset to_lowercase keccak256 input ≡ input
  unfolding canonicalize_asset
  canonicalize-plain input e = rw e refl

  canonicalize-evm :
      (address : Text)
      → canonicalize_asset to_lowercase keccak256 (evm_prefix ++ address) ≡ (
          if contains_colon address
          then evm_prefix ++ address
          else evm_prefix ++ eip55_checksum to_lowercase keccak256 address)
  unfolding canonicalize_asset
  canonicalize-evm address =
      ap (recased to_lowercase keccak256 (evm_prefix ++ address))
        (strip_prefix-append evm_prefix address)

  canonicalize-checksummed :
      (address : Text)
      → contains_colon address ≡ false
      → canonicalize_asset to_lowercase keccak256 (evm_prefix ++ address)
        ≡ evm_prefix ++ eip55_checksum to_lowercase keccak256 address
  canonicalize-checksummed address n = canonicalize-evm address ∙ rw n refl

  checksum-colon :
      (address : Text)
      → contains_colon address ≡ false
      → contains_colon (eip55_checksum to_lowercase keccak256 address) ≡ false
  checksum-colon address n =
      sym (lower-colon (eip55_checksum to_lowercase keccak256 address))
      ∙ ap contains_colon (lower-checksum address)
      ∙ lower-colon address
      ∙ n

  Stable : Text → Type 0
  Stable input =
      canonicalize_asset to_lowercase keccak256 (canonicalize_asset to_lowercase keccak256 input)
      ≡ canonicalize_asset to_lowercase keccak256 input

  Stable-evm : (address : Text) → Stable (evm_prefix ++ address)
  unfolding Stable
  Stable-evm address = elim (Bool-cases (contains_colon address)) [
    | inl c ↦ ap (canonicalize_asset to_lowercase keccak256) (canonicalize-evm address ∙ rw c refl)
    | inr n ↦
        ap (canonicalize_asset to_lowercase keccak256) (canonicalize-checksummed address n)
        ∙ canonicalize-checksummed (eip55_checksum to_lowercase keccak256 address)
            (checksum-colon address n)
        ∙ ap (λ t. evm_prefix ++ t) (eip55_checksum-idempotent address)
        ∙ sym (canonicalize-checksummed address n)
  ]

  -- Two EVM assets whose addresses differ only in the case of ASCII letters have the same canonical form.
  pub canonicalize_asset-casing :
      (a b : Text)
      → map to_ascii_lowercase a ≡ map to_ascii_lowercase b
      → contains_colon a ≡ false
      → canonicalize_asset to_lowercase keccak256 (evm_prefix ++ a)
        ≡ canonicalize_asset to_lowercase keccak256 (evm_prefix ++ b)
  unfolding eip55_checksum
  canonicalize_asset-casing a b e n =
      let same : to_lowercase a ≡ to_lowercase b = lower-ascii a b e in
      let m : contains_colon b ≡ false =
        sym (lower-colon b) ∙ ap contains_colon (sym same) ∙ lower-colon a ∙ n in
      canonicalize-checksummed a n
      ∙ ap (λ lower. evm_prefix ++ recase (keccak256 lower) 0 lower) same
      ∙ sym (canonicalize-checksummed b m)

  -- A canonical asset is its own canonical form. Lower-casing is idempotent, does not depend on the case of
  -- ASCII letters, and neither adds nor removes a colon.
  pub canonicalize_asset-idempotent :
      (input : Text)
      → canonicalize_asset to_lowercase keccak256 (canonicalize_asset to_lowercase keccak256 input)
        ≡ canonicalize_asset to_lowercase keccak256 input
  unfolding Stable
  canonicalize_asset-idempotent input = elim (Option-cases (strip_prefix evm_prefix input)) [
    | inl e ↦ ap (canonicalize_asset to_lowercase keccak256) (canonicalize-plain input e)
    | inr (address, e) ↦
        subst Stable (sym (strip_prefix_sound evm_prefix input e)) (Stable-evm address)
  ]
