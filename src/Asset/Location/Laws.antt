-- ===== src/Asset/Location/Laws.antt =====
-- Parsing and printing of locations:
-- keetanetwork-anchor-client/src/services/asset_movement/location.rs.
use anchor_rs.Prelude.{
  ◌≡◌, ◌↔◌, inl, inr, refl, sym, subst, ◌∙◌, Bool, and_true, or_cases, true, false, not, ◌&&◌, ◌||◌,
  none, some, and_then, Text, codes, [], ◌∷◌, all, any, is_empty, utf8_len, is_ascii_digit, ◌==◌,
  strip_prefix, text_eq, text_eq_sound, if◌then◌else◌, arith,
}
use anchor_rs.Asset.Location.{
  ChainLocation, keeta, evm, solana, bitcoin, tron, AssetLocation, chain, bank_account,
  mobile_wallet, colon, chain_text, to_canonical, split_once, accept, non_empty,
  non_negative_integer, is_base58, solana_genesis_hash, is_ascii_hexdigit, bitcoin_magic_bytes,
  tron_network_alias, chain_of, parse_chain, location_of, from_str,
}
use anchor_rs.Asset.Location.Reading.{is_valid, true-false, any-colon, from_str_sound}

nonempty-test : (p : Text → Bool) (s : Text) → p [] ≡ false → p s ≡ true → is_empty s ≡ false
nonempty-test p [] e h = absurd (true-false (sym h ∙ e))
nonempty-test p (c ∷ s) e h = refl

-- What `parse_chain` does with an accepted identifier.
settled :
    (id : Text) (test : Bool) (make : Text → ChainLocation)
    → is_empty id ≡ false
    → any (λ c. c == colon) id ≡ false
    → test ≡ true
    → and_then
        (if is_empty id || any (λ c. c == colon) id
          then none
          else and_then (accept test id) (λ v. some (make v)))
        (λ c. some (chain c))
      ≡ some (chain (make id))
settled id test make e n t = rw (e, n, t) refl

not-true : {b : Bool} → not b ≡ true → b ≡ false
not-true {b} h = ground arith

digits-settled :
    (id : Text) (make : Text → ChainLocation)
    → not (is_empty id) && all is_ascii_digit id ≡ true
    → and_then
        (if is_empty id || any (λ c. c == colon) id
          then none
          else and_then (non_negative_integer id) (λ v. some (make v)))
        (λ c. some (chain c))
      ≡ some (chain (make id))
unfolding non_negative_integer
digits-settled id make h =
    let (e, d) = and_true h in
    settled id (not (is_empty id) && all is_ascii_digit id) make (not-true e)
      (any-colon is_ascii_digit id refl d) h

-- A valid location is read back from its canonical text.
from_str_complete :
    (loc : AssetLocation) → is_valid loc ≡ true → from_str (to_canonical loc) ≡ some loc
unfolding from_str to_canonical chain_text split_once location_of parse_chain chain_of text_eq
    non_empty solana_genesis_hash bitcoin_magic_bytes tron_network_alias strip_prefix utf8_len
    is_base58 is_ascii_hexdigit
from_str_complete (chain (keeta id)) h = digits-settled id keeta h
from_str_complete (chain (evm id)) h = digits-settled id evm h
from_str_complete (chain (solana id)) h =
    let (l, c) = and_true h in
    settled id ((utf8_len id == 43 || utf8_len id == 44) && all is_base58 id) solana
      (nonempty-test (λ s. utf8_len s == 43 || utf8_len s == 44) id refl l)
      (any-colon is_base58 id refl c) h
from_str_complete (chain (bitcoin id)) h =
    let (l, c) = and_true h in
    settled id (utf8_len id == 8 && all is_ascii_hexdigit id) bitcoin
      (nonempty-test (λ s. utf8_len s == 8) id refl l) (any-colon is_ascii_hexdigit id refl c) h
from_str_complete (chain (tron id)) h =
    let P : Text → Type 0 = λ i. from_str (to_canonical (chain (tron i))) ≡ some (chain (tron i)) in
    elim (or_cases (text_eq id (codes "mainnet") || text_eq id (codes "shasta"))
      (text_eq id (codes "nile")) h) [
        | inl h ↦ elim (or_cases (text_eq id (codes "mainnet")) (text_eq id (codes "shasta")) h) [
          | inl e ↦ subst P (sym (text_eq_sound id (codes "mainnet") e)) refl
          | inr e ↦ subst P (sym (text_eq_sound id (codes "shasta") e)) refl
        ]
        | inr e ↦ subst P (sym (text_eq_sound id (codes "nile") e)) refl
      ]
from_str_complete (bank_account t) h = rw h refl
from_str_complete (mobile_wallet t) h = rw h refl

-- A text parses as a location exactly when the location is valid and the text is its canonical text: no
-- other text parses, and what parses prints back to the very same text. A chain identifier with a colon
-- is not valid, so the Tron alias `custom:<name>` never parses.
pub from_str-eq-some_iff :
    (input : Text) (loc : AssetLocation)
    → (from_str input ≡ some loc) ↔ (is_valid loc ≡ true) × (to_canonical loc ≡ input)
from_str-eq-some_iff input loc = (
  from_str_sound input loc,
  λ (valid, text). subst (λ t. from_str t ≡ some loc) text (from_str_complete loc valid),
)
