-- ===== src/Asset/Location.antt =====
-- keetanetwork-anchor-client/src/services/asset_movement/location.rs. A text is its code points; the
-- source's tests on bytes agree with them, since a byte of a longer code point passes none of them.
pub mod Reading
pub mod Laws
use anchor_rs.Prelude.{
  ℕ, Bool, true, false, not, ◌&&◌, ◌||◌, Option, none, some, and_then, is_some_and, Text, codes,
  List, [], ◌∷◌, ◌++◌, all, any, is_empty, utf8_len, is_ascii_digit, leb, ◌==◌, strip_prefix,
  text_eq, if◌then◌else◌,
}

pub data ChainLocation : Type 0 where
  keeta : (network_id : Text) → ChainLocation
  evm : (chain_id : Text) → ChainLocation
  solana : (genesis_hash : Text) → ChainLocation
  bitcoin : (magic_bytes : Text) → ChainLocation
  tron : (network_alias : Text) → ChainLocation

pub data AssetLocation : Type 0 where
  chain : ChainLocation → AssetLocation
  bank_account : (account_type : Text) → AssetLocation
  mobile_wallet : (account_type : Text) → AssetLocation

abbrev pub colon : ℕ
colon = 58

-- `fmt` for a chain and for a location; `to_canonical` is `to_string`.
unfoldable pub chain_text : ChainLocation → Text
chain_text (keeta id) = codes "keeta:" ++ id
chain_text (evm id) = codes "evm:" ++ id
chain_text (solana hash) = codes "solana:" ++ hash
chain_text (bitcoin magic) = codes "bitcoin:" ++ magic
chain_text (tron name) = codes "tron:" ++ name

unfoldable pub to_canonical : AssetLocation → Text
unfolding chain_text
to_canonical (chain c) = codes "chain:" ++ chain_text c
to_canonical (bank_account t) = codes "bank-account:" ++ t
to_canonical (mobile_wallet t) = codes "mobile-wallet:" ++ t

abbrev before : ℕ → Option (Text × Text) → Option (Text × Text)
before c none = none
before c (some (head, tail)) = some (c ∷ head, tail)

-- `str::split_once` at a colon.
unfoldable pub split_once : Text → Option (Text × Text)
split_once [] = none
split_once (c ∷ s) = let rest = split_once s in if c == colon then some ([], s) else before c rest

-- A field that a test accepts; `none` is the error `FIELD`.
abbrev pub accept : Bool → Text → Option Text
accept test value = if test then some value else none

-- `non_empty`
unfoldable pub non_empty : Text → Option Text
non_empty value = accept (not (is_empty value)) value

-- `non_negative_integer`
unfoldable pub non_negative_integer : Text → Option Text
non_negative_integer value = accept (not (is_empty value) && all is_ascii_digit value) value

-- `is_base58`
unfoldable pub is_base58 : ℕ → Bool
is_base58 b =
    (leb 49 b && leb b 57)
    || (leb 65 b && leb b 72)
    || (leb 74 b && leb b 78)
    || (leb 80 b && leb b 90)
    || (leb 97 b && leb b 107)
    || (leb 109 b && leb b 122)

-- `solana_genesis_hash`
unfoldable pub solana_genesis_hash : Text → Option Text
solana_genesis_hash value =
    accept ((utf8_len value == 43 || utf8_len value == 44) && all is_base58 value) value

-- `is_ascii_hexdigit`
unfoldable pub is_ascii_hexdigit : ℕ → Bool
is_ascii_hexdigit b = (leb 48 b && leb b 57) || (leb 65 b && leb b 70) || (leb 97 b && leb b 102)

-- `bitcoin_magic_bytes`
unfoldable pub bitcoin_magic_bytes : Text → Option Text
bitcoin_magic_bytes value = accept (utf8_len value == 8 && all is_ascii_hexdigit value) value

-- `tron_network_alias`
unfoldable pub tron_network_alias : Text → Option Text
tron_network_alias value =
    accept
      ((text_eq value (codes "mainnet")
          || text_eq value (codes "shasta")
          || text_eq value (codes "nile"))
        || is_some_and (strip_prefix (codes "custom:") value) (λ name. not (is_empty name)))
      value

-- The `match` on the chain type.
unfoldable pub chain_of : Text → Text → Option ChainLocation
chain_of chain_type id =
    if text_eq chain_type (codes "keeta")
    then and_then (non_negative_integer id) (λ v. some (keeta v))
    else if text_eq chain_type (codes "evm")
    then and_then (non_negative_integer id) (λ v. some (evm v))
    else if text_eq chain_type (codes "solana")
    then and_then (solana_genesis_hash id) (λ v. some (solana v))
    else if text_eq chain_type (codes "bitcoin")
    then and_then (bitcoin_magic_bytes id) (λ v. some (bitcoin v))
    else if text_eq chain_type (codes "tron")
    then and_then (tron_network_alias id) (λ v. some (tron v))
    else none

-- `parse_chain`
unfoldable pub parse_chain : Text → Option ChainLocation
parse_chain rest = and_then (split_once rest) (λ (chain_type, id).
    if is_empty id || any (λ c. c == colon) id then none else chain_of chain_type id)

-- The `match` on the kind.
unfoldable pub location_of : Text → Text → Option AssetLocation
location_of kind rest =
    if text_eq kind (codes "chain")
    then and_then (parse_chain rest) (λ c. some (chain c))
    else if text_eq kind (codes "bank-account")
    then and_then (non_empty rest) (λ t. some (bank_account t))
    else if text_eq kind (codes "mobile-wallet")
    then and_then (non_empty rest) (λ t. some (mobile_wallet t))
    else none

-- `AssetLocation::from_str`
unfoldable pub from_str : Text → Option AssetLocation
from_str input = and_then (split_once input) (λ (kind, rest). location_of kind rest)
