-- ===== src/Asset/Operations.antt =====
-- The operations of keetanetwork-anchor-client/src/services/asset_movement/metadata.rs.
pub mod Laws
use mathlib.Core.Option
use anchor_rs.Prelude.{
  Bool, true, false, Option, none, some, is_some, and_then, unwrap_or, Text, codes, List, [], ◌∷◌,
  map, filter_map, text_eq, if◌then◌else◌,
}
use anchor_rs.Json.{Value, fields, Fields, get, as_str, as_object}

-- `EndpointAuth`
pub data EndpointAuth : Type 0 where
  unsigned optional required : EndpointAuth

-- `EndpointAuth::signs`
unfoldable pub signs : EndpointAuth → Bool
signs unsigned = false
signs optional = true
signs required = true

pub record OperationEndpoint : Type 0 where
  pub url : Text
  pub auth : EndpointAuth

-- `AssetMovementOperations`
abbrev pub Operations : Type 0
Operations = List (Text × OperationEndpoint)

-- `AssetMovementOperations::get`
unfoldable pub get_operation : Text → Operations → Option OperationEndpoint
get_operation operation [] = none
get_operation operation ((name, endpoint) ∷ entries) =
    if text_eq name operation then some endpoint else get_operation operation entries

-- `contains` and `names`
unfoldable pub contains : Text → Operations → Bool
unfolding get_operation
contains operation entries = is_some (get_operation operation entries)

abbrev pub names : Operations → List Text
names entries = map (λ (name, endpoint). name) entries

abbrev pub get_account_status : Text
get_account_status = codes "getAccountStatus"

-- `auth_override`
unfoldable pub auth_override : Text → EndpointAuth → EndpointAuth
auth_override name auth = if text_eq name get_account_status then required else auth

-- `parse_auth_type`
unfoldable pub parse_auth_type : Text → EndpointAuth
parse_auth_type value =
    if text_eq value (codes "required")
    then required
    else if text_eq value (codes "optional")
    then optional
    else unsigned

-- The authentication that the options of an endpoint name.
unfoldable pub declared_auth : Value → EndpointAuth
unfolding parse_auth_type
declared_auth value =
    unwrap_or
      (Option.map parse_auth_type (
        and_then (and_then (and_then (get "options" value) (get "authentication")) (get "type"))
          as_str))
      unsigned

abbrev pub endpoint_at : Text → EndpointAuth → Text → OperationEndpoint
endpoint_at name auth url = record { url = url; auth = auth_override name auth }

abbrev pub bare_or_object : Text → Value → Option Text → Option OperationEndpoint
bare_or_object name value (some url) = some (endpoint_at name unsigned url)
bare_or_object name value none =
    Option.map (endpoint_at name (declared_auth value)) (and_then (get "url" value) as_str)

-- `parse_endpoint`
unfoldable pub parse_endpoint : Text → Value → Option OperationEndpoint
unfolding declared_auth
parse_endpoint name value = bare_or_object name value (as_str value)

abbrev pub named : Text → Option OperationEndpoint → Option (Text × OperationEndpoint)
named name none = none
named name (some endpoint) = some (name, endpoint)

abbrev pub advertised : Option Fields → Operations
advertised none = []
advertised (some entries) =
    filter_map (λ (name, value). named name (parse_endpoint name value)) (fields entries)

-- `AssetMovementOperations::from_entry`
unfoldable pub from_entry : Value → Operations
from_entry entry = advertised (and_then (get "operations" entry) as_object)
