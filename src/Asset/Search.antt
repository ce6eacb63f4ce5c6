-- ===== src/Asset/Search.antt =====
-- Providers and the search for one, of keetanetwork-anchor-client/src/services/asset_movement/metadata.rs.
pub mod Laws
use mathlib.Core.Option
use anchor_rs.Prelude.{
  ℕ, Bool, true, false, not, ◌&&◌, ◌||◌, Option, none, some, and_then, unwrap_or, is_some_and,
  String, Text, codes, List, [], ◌∷◌, ◌++◌, any, is_empty, filter_map, text_eq, if◌then◌else◌,
}
use anchor_rs.Json.{Value, get, get_key, as_str, as_array, is_null}
use anchor_rs.Asset.Canonical.{AssetOrPair, single, pair, canonicalize_asset}
use anchor_rs.Asset.Operations.{Operations, from_entry}

-- `AssetMovementProviderInfo`
pub record ProviderInfo : Type 0 where
  pub id : Text
  pub operations : Operations
  pub supported_assets : List Value
  pub location_metadata : Option Value
  pub legal : Option Value
  pub account : Option Text

abbrev unless_null : Option Value → Option Value
unless_null none = none
unless_null (some v) = if is_null v then none else some v

-- `AssetMovementProviderInfo::from_entry`
unfoldable pub info_from_entry : Text → Value → ProviderInfo
unfolding from_entry
info_from_entry id entry = record {
  id = id;
  operations = from_entry entry;
  supported_assets = unwrap_or (and_then (get "supportedAssets" entry) as_array) [];
  location_metadata = unless_null (get "locationMetadata" entry);
  legal = unless_null (get "legal" entry);
  account = and_then (get "account" entry) as_str;
}

-- `asset_metadata_for_location` up to the decoding of what it finds.
unfoldable pub metadata_for_location : ProviderInfo → Text → Text → Option Value
metadata_for_location provider location asset =
    and_then (and_then (and_then provider.location_metadata (get_key location)) (get "assets"))
      (get_key asset)

pub record ProviderFilter : Type 0 where
  pub id : Option Text
  pub account : Option Text

-- `is_none_or`
abbrev pub is_none_or : {A : Type 0} → Option A → (A → Bool) → Bool
is_none_or none p = true
is_none_or (some a) p = p a

-- `Option<&str> == Some(text)`
abbrev pub equals : Option Text → Text → Bool
equals o t = is_some_and o (λ s. text_eq s t)

-- `ProviderFilter::accepts`
unfoldable pub filter_accepts : ProviderFilter → ProviderInfo → Bool
filter_accepts filter provider =
    is_none_or filter.id (λ id. text_eq id provider.id)
    && is_none_or filter.account (λ account. equals provider.account account)

-- `AssetMovementQuery::parse`
unfoldable pub parse_provider : Text → Value → ProviderFilter → Option ProviderInfo
parse_provider id entry criteria =
    let provider = info_from_entry id entry in
    if filter_accepts criteria provider then some provider else none

pub record ProviderSearch : Type 0 where
  pub asset : Option AssetOrPair
  pub from : Option Text
  pub to : Option Text
  pub inbound_rails : List Text
  pub outbound_rails : List Text

abbrev pub for_asset : AssetOrPair → ProviderSearch
for_asset asset = record {
  asset = some asset;
  from = none;
  to = none;
  inbound_rails = [];
  outbound_rails = [];
}

pub data Direction : Type 0 where
  inbound outbound : Direction

-- `location_matches`
unfoldable pub location_matches : Option Text → Value → Bool
location_matches none endpoint = true
location_matches (some wanted) endpoint = equals (and_then (get "location" endpoint) as_str) wanted

abbrev bare_or_rail : Value → Option Text → Option Text
bare_or_rail entry (some name) = some name
bare_or_rail entry none = and_then (get "rail" entry) as_str

-- `rail_name`
unfoldable pub rail_name : Value → Option Text
rail_name entry = bare_or_rail entry (as_str entry)

-- `rail_names`
unfoldable pub rail_names : Option Value → List Text
unfolding rail_name
rail_names rails = unwrap_or (Option.map (filter_map rail_name) (and_then rails as_array)) []

abbrev pub direction_key : Direction → String
direction_key inbound = "inbound"
direction_key outbound = "outbound"

abbrev rails_of : Option Value → Direction → List Text
rails_of none direction = []
rails_of (some rails) direction =
    rail_names (get (direction_key direction) rails) ++ rail_names (get "common" rails)

-- `endpoint_rails`
unfoldable pub endpoint_rails : Value → Direction → List Text
unfolding rail_names
endpoint_rails endpoint direction = rails_of (get "rails" endpoint) direction

-- `rail_pool_matches`
unfoldable pub rail_pool_matches : List Text → List Text → Bool
rail_pool_matches wanted pool =
    is_empty wanted || any (λ rail. any (λ have. text_eq have rail) pool) wanted

-- `rails_orientation_matches`
unfoldable pub rails_orientation_matches : List Text → List Text → Value → Value → Bool
unfolding endpoint_rails rail_pool_matches
rails_orientation_matches wanted_in wanted_out source dest =
    let inbound_pool = endpoint_rails source inbound in
    let outbound_pool = endpoint_rails dest outbound in
    if is_empty inbound_pool && is_empty outbound_pool
    then false
    else rail_pool_matches wanted_in inbound_pool && rail_pool_matches wanted_out outbound_pool

module _ (to_lowercase : Text → Text) (keccak256 : Text → List ℕ) where
  abbrev pub canonical : Text → Text
  canonical asset = canonicalize_asset to_lowercase keccak256 asset

  -- `endpoint_asset_id`
  unfoldable pub endpoint_asset_id : Value → Option Text
  endpoint_asset_id endpoint = Option.map canonical (and_then (get "id" endpoint) as_str)

  -- `ProviderSearch::asset_matches`
  unfoldable pub asset_matches : Option AssetOrPair → Value → Value → Bool
  unfolding endpoint_asset_id
  asset_matches none source dest = true
  asset_matches (some (single name)) source dest =
      equals (endpoint_asset_id source) (canonical name)
      || equals (endpoint_asset_id dest) (canonical name)
  asset_matches (some (pair from to)) source dest =
      equals (endpoint_asset_id source) (canonical from)
      && equals (endpoint_asset_id dest) (canonical to)

  -- `orientation_matches`
  unfoldable pub orientation_matches : ProviderSearch → Value → Value → Bool
  unfolding asset_matches location_matches rails_orientation_matches
  orientation_matches search source dest =
      asset_matches search.asset source dest
      && location_matches search.from source
      && location_matches search.to dest
      && rails_orientation_matches search.inbound_rails search.outbound_rails source dest

  abbrev pub pair_matches : ProviderSearch → List Value → Bool
  pair_matches search (first ∷ second ∷ []) =
      orientation_matches search first second || orientation_matches search second first
  pair_matches search _ = false

  -- `path_matches`
  unfoldable pub path_matches : ProviderSearch → Value → Bool
  unfolding orientation_matches
  path_matches search path = is_some_and (and_then (get "pair" path) as_array) (pair_matches search)

  -- `entry_matches`
  unfoldable pub entry_matches : ProviderSearch → Value → Bool
  unfolding path_matches
  entry_matches search entry =
      is_some_and (and_then (get "paths" entry) as_array) (any (path_matches search))

  -- `ProviderSearch::accepts`
  unfoldable pub accepts : ProviderSearch → ProviderInfo → Bool
  unfolding entry_matches
  accepts search provider = any (entry_matches search) provider.supported_assets
