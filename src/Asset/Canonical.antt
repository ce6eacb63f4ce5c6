-- ===== src/Asset/Canonical.antt =====
-- keetanetwork-anchor-client/src/services/asset_movement/asset.rs: canonical assets. Unicode lower-casing
-- (`str::to_lowercase`) and Keccak-256 of a text's UTF-8 bytes are arguments.
pub mod Laws
use anchor_rs.Prelude.{
  ℕ, suc, ◌+◌, ◌-◌, ◌*◌, ◌/◌, ◌%◌, Bool, true, false, ◌&&◌, Option, none, some, unwrap_or, Text,
  codes, List, [], ◌∷◌, ◌++◌, get_elem?, any, leb, ◌==◌, strip_prefix, if◌then◌else◌,
}
use anchor_rs.Json.{Value, string, object, field, end}

abbrev pub evm_prefix : Text
evm_prefix = codes "evm:0x"

pub data AssetOrPair : Type 0 where
  single : Text → AssetOrPair
  pair : (from to : Text) → AssetOrPair

unfoldable pub to_ascii_uppercase : ℕ → ℕ
to_ascii_uppercase c = if leb 97 c && leb c 122 then c - 32 else c

-- The half of the hash byte that stands for a position.
unfoldable pub nibble : List ℕ → ℕ → ℕ
nibble hash position =
    let byte = unwrap_or (get_elem? hash (position / 2)) 0 in
    if position % 2 == 0 then byte / 16 else byte % 16

unfoldable pub recase : List ℕ → ℕ → Text → Text
unfolding nibble to_ascii_uppercase
recase hash position [] = []
recase hash position (c ∷ s) =
    (if leb 8 (nibble hash position) then to_ascii_uppercase c else c)
    ∷ recase hash (suc position) s

abbrev pub contains_colon : Text → Bool
contains_colon s = any (λ c. c == 58) s

module _ (to_lowercase : Text → Text) (keccak256 : Text → List ℕ) where
  -- `eip55_checksum`
  unfoldable pub eip55_checksum : Text → Text
  unfolding recase
  eip55_checksum address = let lower = to_lowercase address in recase (keccak256 lower) 0 lower

  -- The text that is left of an asset after the prefix of an EVM asset.
  abbrev pub recased : Text → Option Text → Text
  recased input none = input
  recased input (some address) =
      if contains_colon address then input else evm_prefix ++ eip55_checksum address

  -- `canonicalize_asset`
  unfoldable pub canonicalize_asset : Text → Text
  canonicalize_asset input = recased input (strip_prefix evm_prefix input)

  unfoldable pub pair_object : Text → Text → Value
  pair_object from to =
      object (field (codes "from") (string from) (field (codes "to") (string to) end))

  -- `AssetOrPair::to_canonical_value`
  unfoldable pub to_canonical_value : AssetOrPair → Value
  unfolding pair_object
  to_canonical_value (single asset) = string (canonicalize_asset asset)
  to_canonical_value (pair from to) = pair_object (canonicalize_asset from) (canonicalize_asset to)

  -- `AssetOrPair::to_pair_value`
  unfoldable pub to_pair_value : AssetOrPair → Value
  unfolding pair_object
  to_pair_value (single asset) = pair_object (canonicalize_asset asset) (canonicalize_asset asset)
  to_pair_value (pair from to) = pair_object (canonicalize_asset from) (canonicalize_asset to)
