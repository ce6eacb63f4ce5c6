-- ===== src/Asset/Tests.antt =====
-- The asset-movement theorems at concrete inputs.
use anchor_rs.Prelude.{
  ℕ, ◌≡◌, ◌↔◌, refl, true, some, Text, text_eq, codes, map, ◌==◌, arith, List, [], ◌∷◌, Any,
}
use anchor_rs.Json.{Value, string, array, object, nil, cons, end, field, get_key}
use anchor_rs.Asset.Blocker.{user_action_needed_code}
use anchor_rs.Asset.Location.{chain, evm, from_str, to_canonical}
use anchor_rs.Asset.Location.Reading.{is_valid}
use anchor_rs.Asset.Location.Laws.{from_str-eq-some_iff}
use anchor_rs.Asset.Canonical.{single, contains_colon, canonicalize_asset}
use anchor_rs.Asset.Canonical.Laws.{to_ascii_lowercase, canonicalize_asset-idempotent}
use anchor_rs.Asset.Operations.{
  required, parse_endpoint, auth_override, get_operation, get_account_status, from_entry,
}
use anchor_rs.Asset.Operations.Laws.{get_operation-account_status}
use anchor_rs.Asset.Search.{ProviderInfo, for_asset, info_from_entry, accepts}
use anchor_rs.Asset.Search.Laws.{Offers, accepts_iff}

abbrev refusal : Value
refusal = object (field (codes "code") (string user_action_needed_code) end)

from_str-eq-some_iff_example :
    (from_str (codes "chain:evm:100") ≡ some (chain (evm (codes "100"))))
    ↔ (is_valid (chain (evm (codes "100"))) ≡ true)
      × (to_canonical (chain (evm (codes "100"))) ≡ codes "chain:evm:100")
from_str-eq-some_iff_example =
    from_str-eq-some_iff (codes "chain:evm:100") (chain (evm (codes "100")))

abbrev published : Value
published = object (
    field (codes "operations")
      (object (field get_account_status (string (codes "https://anchor/status")) end)) end)

get_operation-account_status_example : required ≡ required
unfolding from_entry get_operation parse_endpoint auth_override get_key text_eq
get_operation-account_status_example =
    get_operation-account_status published
      (record { url = codes "https://anchor/status"; auth = required }) refl

-- Lower-casing of ASCII letters only.
abbrev lower : Text → Text
lower t = map to_ascii_lowercase t

lower-once : (c : ℕ) → to_ascii_lowercase (to_ascii_lowercase c) ≡ to_ascii_lowercase c
unfolding to_ascii_lowercase
lower-once c = ground arith

lower-idempotent : (s : Text) → lower (lower s) ≡ lower s
lower-idempotent [] = refl
lower-idempotent (c ∷ s) = rw (lower-once c, lower-idempotent s) refl

colon-lower : (c : ℕ) → (to_ascii_lowercase c == 58) ≡ (c == 58)
unfolding to_ascii_lowercase
colon-lower c = ground arith

lower-colon : (s : Text) → contains_colon (lower s) ≡ contains_colon s
lower-colon [] = refl
lower-colon (c ∷ s) = rw (colon-lower c, lower-colon s) refl

abbrev no_hash : Text → List ℕ
no_hash t = []

abbrev rails : Value
rails = object (field (codes "common") (array (cons (string (codes "KEETA_SEND")) nil)) end)

abbrev end_of : Text → Value
end_of id = object (field (codes "id") (string id) (field (codes "rails") rails end))

abbrev provider : ProviderInfo
provider = info_from_entry (codes "p") (
    object (
      field (codes "supportedAssets")
        (array (
          cons
            (object (
              field (codes "paths")
                (array (
                  cons
                    (object (
                      field (codes "pair")
                        (array (cons (end_of (codes "USD")) (cons (end_of (codes "EUR")) nil)))
                        end))
                    nil))
                end))
            nil))
        end))

accepts_iff_example :
    (accepts lower no_hash (for_asset (single (codes "USD"))) provider ≡ true)
    ↔ Any (Offers lower no_hash (for_asset (single (codes "USD")))) provider.supported_assets
accepts_iff_example = accepts_iff lower no_hash (for_asset (single (codes "USD"))) provider

canonicalize_asset-idempotent_example :
    canonicalize_asset lower no_hash (canonicalize_asset lower no_hash (codes "evm:0xAb"))
    ≡ canonicalize_asset lower no_hash (codes "evm:0xAb")
canonicalize_asset-idempotent_example =
    canonicalize_asset-idempotent lower no_hash lower-idempotent (λ s t e. e) lower-colon
      (codes "evm:0xAb")
