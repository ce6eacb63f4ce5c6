-- ===== src/Asset/Operations/Laws.antt =====
-- Reading operations from a metadata entry:
-- keetanetwork-anchor-client/src/services/asset_movement/metadata.rs.
use mathlib.Core.Option
use anchor_rs.Prelude.{
  ◌≡◌, inl, inr, refl, sym, ap, ◌∙◌, true, Option, none, some, and_then, Text, List, [], ◌∷◌,
  filter_map, filter_some, branch, text_eq,
}
use anchor_rs.Json.{Value, get, Fields, fields, as_str, as_object}
use anchor_rs.Asset.Operations.{
  EndpointAuth, required, OperationEndpoint, Operations, get_operation, get_account_status,
  auth_override, declared_auth, bare_or_object, named, endpoint_at, parse_endpoint, advertised,
  from_entry,
}

overridden :
    (name url : Text) (auth : EndpointAuth) (endpoint : OperationEndpoint)
    → text_eq name get_account_status ≡ true
    → some (endpoint_at name auth url) ≡ some endpoint
    → endpoint.auth ≡ required
unfolding auth_override
overridden name url auth endpoint e h =
    sym (ap (λ (o : Option OperationEndpoint). elim o [ none ↦ required | some x ↦ x.auth ]) h)
    ∙ rw e refl

object-auth :
    (name : Text) (auth : EndpointAuth) (url : Option Text) (endpoint : OperationEndpoint)
    → text_eq name get_account_status ≡ true
    → Option.map (endpoint_at name auth) url ≡ some endpoint
    → endpoint.auth ≡ required
object-auth name auth none endpoint e h = cc
object-auth name auth (some url) endpoint e h = overridden name url auth endpoint e h

endpoint-auth :
    (name : Text) (value : Value) (bare : Option Text) (endpoint : OperationEndpoint)
    → text_eq name get_account_status ≡ true
    → bare_or_object name value bare ≡ some endpoint
    → endpoint.auth ≡ required
endpoint-auth name value (some url) endpoint e h = overridden name url _ endpoint e h
endpoint-auth name value none endpoint e h =
    object-auth name (declared_auth value) (and_then (get "url" value) as_str) endpoint e h

-- One entry of the metadata object, and the entries after it.
entry-step :
    (name : Text) (parsed : Option OperationEndpoint) (rest : Operations)
    (endpoint : OperationEndpoint)
    → ((e : OperationEndpoint)
        → text_eq name get_account_status ≡ true
        → parsed ≡ some e
        → e.auth ≡ required)
    → (get_operation get_account_status rest ≡ some endpoint → endpoint.auth ≡ required)
    → get_operation get_account_status (filter_some (named name parsed) rest) ≡ some endpoint
    → endpoint.auth ≡ required
unfolding get_operation
entry-step name none rest endpoint here later h = later h
entry-step name (some found) rest endpoint here later h =
    elim (branch (text_eq name get_account_status) h) [
      | inl (e, same) ↦ here endpoint e same
      | inr (_, h) ↦ later h
    ]

status-required :
    (entries : List (Text × Value)) (endpoint : OperationEndpoint)
    → get_operation get_account_status
        (filter_map (λ (name, value). named name (parse_endpoint name value)) entries)
      ≡ some endpoint
    → endpoint.auth ≡ required
unfolding get_operation parse_endpoint
status-required [] endpoint h = cc
status-required ((name, value) ∷ entries) endpoint h =
    entry-step name (parse_endpoint name value)
      (filter_map (λ (name, value). named name (parse_endpoint name value)) entries) endpoint
      (endpoint-auth name value (as_str value)) (status-required entries endpoint) h

object-required :
    (entries : Option Fields) (endpoint : OperationEndpoint)
    → get_operation get_account_status (advertised entries) ≡ some endpoint
    → endpoint.auth ≡ required
unfolding get_operation
object-required none endpoint h = cc
object-required (some entries) endpoint h = status-required (fields entries) endpoint h

-- Whatever a provider publishes, a `getAccountStatus` that it advertises requires a signature.
pub get_operation-account_status :
    (entry : Value) (endpoint : OperationEndpoint)
    → get_operation get_account_status (from_entry entry) ≡ some endpoint
    → endpoint.auth ≡ required
unfolding from_entry
get_operation-account_status entry endpoint h =
    object-required (and_then (get "operations" entry) as_object) endpoint h
