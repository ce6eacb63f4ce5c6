-- ===== src/Asset/Blocker.antt =====
-- keetanetwork-anchor-client/src/services/asset_movement/error.rs: blockers, rehydrated from an error
-- envelope. `to_string` and `cloned` copies are the values themselves.
pub mod Laws
use mathlib.Core.Option
use anchor_rs.Prelude.{
  Bool, true, false, Option, none, some, is_some, and_then, unwrap_or, String, Text, codes, List,
  [], ◌∷◌, filter_map, text_eq, if◌then◌else◌,
}
use anchor_rs.Json.{Value, null, get, as_str, as_array, is_null}

abbrev pub kyc_share_needed_code : Text
kyc_share_needed_code = codes "KEETA_ANCHOR_ASSET_MOVEMENT_KYC_SHARE_NEEDED"

abbrev pub additional_kyc_needed_code : Text
additional_kyc_needed_code = codes "KEETA_ANCHOR_ASSET_MOVEMENT_ADDITIONAL_KYC_NEEDED"

abbrev pub operation_not_supported_code : Text
operation_not_supported_code = codes "KEETA_ANCHOR_ASSET_MOVEMENT_OPERATION_NOT_SUPPORTED"

abbrev pub user_action_needed_code : Text
user_action_needed_code = codes "KEETA_ANCHOR_ASSET_MOVEMENT_USER_ACTION_NEEDED"

-- `AssetMovementBlocker`
pub data Blocker : Type 0 where
  kyc_share_needed :
      (tos_flow : Option Value) (needed_attributes : Option (List Text))
      (share_with_principals : List Text) (accepted_issuers : Value)
      → Blocker
  additional_kyc_needed : (to_complete_flow : Option Value) → Blocker
  operation_not_supported : (for_asset : Option Value) (for_rail : Option Text) → Blocker
  user_action_needed : (actions_needed : List Value) → Blocker
  other : (name : Text) (code : Option Text) (message : Text) → Blocker

pub data AccountStatus : Type 0 where
  ready : AccountStatus
  action_required : List Blocker → AccountStatus

-- `transport_code`
unfoldable pub transport_code : Blocker → Option Text
transport_code (kyc_share_needed t n s a) = some kyc_share_needed_code
transport_code (additional_kyc_needed f) = some additional_kyc_needed_code
transport_code (operation_not_supported a r) = some operation_not_supported_code
transport_code (user_action_needed a) = some user_action_needed_code
transport_code (other n c m) = none

-- `is_recognized`
unfoldable pub is_recognized : Blocker → Bool
unfolding transport_code
is_recognized blocker = is_some (transport_code blocker)

abbrev unless_null : Option Value → Option Value
unless_null none = none
unless_null (some v) = if is_null v then none else some v

-- `field`: a field of the optional data that is not null.
abbrev pub field : Option Value → String → Option Value
field content key = unless_null (and_then content (get key))

-- `array_field`
abbrev pub array_field : Option Value → String → List Value
array_field content key = unwrap_or (and_then (field content key) as_array) []

-- `AssetMovementBlocker::kyc_share_needed`
unfoldable pub share_needed : Option Value → Blocker
share_needed content =
    kyc_share_needed (field content "tosFlow")
      (Option.map (filter_map as_str) (and_then (field content "neededAttributes") as_array))
      (filter_map as_str (array_field content "shareWithPrincipals"))
      (unwrap_or (field content "acceptedIssuers") null)

-- `AssetMovementBlocker::other`
unfoldable pub kept_verbatim : Value → Option Text → Blocker
kept_verbatim entry code =
    other (unwrap_or (and_then (get "name" entry) as_str) []) code
      (unwrap_or (and_then (get "error" entry) as_str) [])

-- The `match` on the code that the envelope carries.
unfoldable pub rehydrate : Value → Option Value → Option Text → Blocker
unfolding share_needed kept_verbatim
rehydrate entry content none = kept_verbatim entry none
rehydrate entry content (some code) =
    if text_eq code kyc_share_needed_code
    then share_needed content
    else if text_eq code additional_kyc_needed_code
    then additional_kyc_needed (field content "toCompleteFlow")
    else if text_eq code operation_not_supported_code
    then operation_not_supported (field content "forAsset")
        (and_then (field content "forRail") as_str)
    else if text_eq code user_action_needed_code
    then user_action_needed (array_field content "actionsNeeded")
    else kept_verbatim entry (some code)

-- `from_transport`
unfoldable pub from_transport : Value → Blocker
unfolding rehydrate
from_transport entry = rehydrate entry (get "data" entry) (and_then (get "code" entry) as_str)
