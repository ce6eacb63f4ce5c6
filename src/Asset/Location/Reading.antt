-- ===== src/Asset/Location/Reading.antt =====
-- From a text to a location: keetanetwork-anchor-client/src/services/asset_movement/location.rs.
use anchor_rs.Prelude.{
  ℕ, ◌≡◌, ◌≢◌, ◌⊎◌, inl, inr, refl, sym, ap, subst, ◌∙◌, Bool, Bool-cases, Option-cases, and_true,
  true, false, not, ◌&&◌, ◌||◌, Option, none, some, and_then, is_some_and, Text, codes, [], ◌∷◌,
  ◌++◌, all, any, is_empty, utf8_len, is_ascii_digit, ◌==◌, ==_iff, strip_prefix,
  strip_prefix_sound, text_eq, text_eq_sound, if◌then◌else◌, branch,
}
use anchor_rs.Asset.Location.{
  ChainLocation, keeta, evm, solana, bitcoin, tron, AssetLocation, chain, bank_account,
  mobile_wallet, colon, chain_text, to_canonical, before, split_once, accept, non_empty,
  non_negative_integer, is_base58, solana_genesis_hash, is_ascii_hexdigit, bitcoin_magic_bytes,
  tron_network_alias, chain_of, parse_chain, location_of, from_str,
}

-- What each kind of location may hold. A Tron network is one of the three known names.
abbrev pub is_valid_chain : ChainLocation → Bool
is_valid_chain (keeta id) = not (is_empty id) && all is_ascii_digit id
is_valid_chain (evm id) = not (is_empty id) && all is_ascii_digit id
is_valid_chain (solana hash) = (utf8_len hash == 43 || utf8_len hash == 44) && all is_base58 hash
is_valid_chain (bitcoin magic) = utf8_len magic == 8 && all is_ascii_hexdigit magic
is_valid_chain (tron name) =
    text_eq name (codes "mainnet") || text_eq name (codes "shasta") || text_eq name (codes "nile")

abbrev pub is_valid : AssetLocation → Bool
is_valid (chain c) = is_valid_chain c
is_valid (bank_account t) = not (is_empty t)
is_valid (mobile_wallet t) = not (is_empty t)

pub true-false : true ≢ false
true-false h = cc

some_injective : {A : Type 0} {a b : A} → some a ≡ some b → a ≡ b
some_injective h = cc

and_then-some :
    {A B : Type 0} {f : A → Option B} {b : B} (o : Option A)
    → and_then o f ≡ some b
    → (a : A) × (o ≡ some a) × (f a ≡ some b)
and_then-some none h = cc
and_then-some (some a) h = (a, refl, h)

accept-some : (test : Bool) {v w : Text} → accept test v ≡ some w → (test ≡ true) × (v ≡ w)
accept-some true h = (refl, cc)
accept-some false h = cc

before-some :
    (c : ℕ) (o : Option (Text × Text)) {k r : Text}
    → before c o ≡ some (k, r)
    → (head : Text) × (o ≡ some (head, r)) × (c ∷ head ≡ k)
before-some c none h = cc
before-some c (some (head, tail)) h = (head, cc, cc)

split-step :
    (b : Bool) (c : ℕ) (s : Text) (o : Option (Text × Text)) {k r : Text}
    → (if b then some ([], s) else before c o) ≡ some (k, r)
    → ((b ≡ true) × ([] ≡ k) × (s ≡ r)) ⊎ ((head : Text) × (o ≡ some (head, r)) × (c ∷ head ≡ k))
split-step true c s o h = inl (refl, cc, cc)
split-step false c s o h = inr (before-some c o h)

split_once_sound : (s k r : Text) → split_once s ≡ some (k, r) → s ≡ k ++ colon ∷ r
unfolding split_once
split_once_sound [] k r h = cc
split_once_sound (c ∷ s) k r h = elim (split-step (c == colon) c s (split_once s) h) [
  | inl (e, head, tail) ↦
      let first : c ≡ colon = (==_iff c colon).0 e in rw (first, sym head, tail) refl
  | inr (head, e, same) ↦ rw (split_once_sound s head r e, sym same) refl
]

pub any-colon :
    (p : ℕ → Bool) (s : Text) → p colon ≡ false → all p s ≡ true → any (λ c. c == colon) s ≡ false
any-colon p [] e h = refl
any-colon p (c ∷ s) e h =
    let (first, rest) = and_true h in
    elim (Bool-cases (c == colon)) [
      | inl same ↦ absurd (true-false (sym first ∙ ap p ((==_iff c colon).0 same) ∙ e))
      | inr other ↦ rw (other, any-colon p s e rest) refl
    ]

-- What a chain type that is recognized gives: the text is the type, a colon and the identifier.
SoundChain : Text → Text → ChainLocation → Type 0
SoundChain chain_type id c = (chain_text c ≡ chain_type ++ colon ∷ id) × (is_valid_chain c ≡ true)

arm :
    (name chain_type id : Text) (test : Bool) (make : Text → ChainLocation) {c : ChainLocation}
    → ((v : Text) → chain_text (make v) ≡ name ++ colon ∷ v)
    → (test ≡ true → is_valid_chain (make id) ≡ true)
    → text_eq chain_type name ≡ true
    → and_then (accept test id) (λ v. some (make v)) ≡ some c
    → SoundChain chain_type id c
unfolding SoundChain
arm name chain_type id test make {c} prints valid e h =
    let (v, a, m) = and_then-some (accept test id) h in
    let (t, same) = accept-some test a in
    let made : make id ≡ c = ap make same ∙ some_injective m in
    subst (SoundChain chain_type id) made
      (prints id ∙ ap (λ k. k ++ colon ∷ id) (sym (text_eq_sound chain_type name e)), valid t)

or_drop : (a b : Bool) → b ≡ false → (a || b) ≡ true → a ≡ true
or_drop true b e h = refl
or_drop false b e h = absurd (true-false (sym h ∙ e))

or_false : (a : Bool) {b : Bool} → (a || b) ≡ false → b ≡ false
or_false true h = cc
or_false false h = h

tron-valid :
    (id : Text)
    → any (λ c. c == colon) id ≡ false
    → ((text_eq id (codes "mainnet") || text_eq id (codes "shasta") || text_eq id (codes "nile"))
        || is_some_and (strip_prefix (codes "custom:") id) (λ name. not (is_empty name)))
      ≡ true
    → is_valid_chain (tron id) ≡ true
tron-valid id n h = elim (Option-cases (strip_prefix (codes "custom:") id)) [
  | inl e ↦
      or_drop (is_valid_chain (tron id))
        (is_some_and (strip_prefix (codes "custom:") id) (λ name. not (is_empty name)))
        (ap (λ o. is_some_and o (λ name. not (is_empty name))) e) h
  | inr (rest, e) ↦ absurd (
      true-false (sym (ap (any (λ c. c == colon)) (strip_prefix_sound (codes "custom:") id e)) ∙ n))
]

chain_of_sound :
    (chain_type id : Text) (c : ChainLocation)
    → any (λ c. c == colon) id ≡ false
    → chain_of chain_type id ≡ some c
    → SoundChain chain_type id c
unfolding chain_of non_negative_integer solana_genesis_hash bitcoin_magic_bytes tron_network_alias
    chain_text
chain_of_sound chain_type id c n h = elim (branch (text_eq chain_type (codes "keeta")) h) [
  | inl (e, h) ↦ arm (codes "keeta") chain_type id _ keeta (λ v. refl) (λ t. t) e h
  | inr (_, h) ↦ elim (branch (text_eq chain_type (codes "evm")) h) [
    | inl (e, h) ↦ arm (codes "evm") chain_type id _ evm (λ v. refl) (λ t. t) e h
    | inr (_, h) ↦ elim (branch (text_eq chain_type (codes "solana")) h) [
      | inl (e, h) ↦ arm (codes "solana") chain_type id _ solana (λ v. refl) (λ t. t) e h
      | inr (_, h) ↦ elim (branch (text_eq chain_type (codes "bitcoin")) h) [
        | inl (e, h) ↦ arm (codes "bitcoin") chain_type id _ bitcoin (λ v. refl) (λ t. t) e h
        | inr (_, h) ↦ elim (branch (text_eq chain_type (codes "tron")) h) [
          | inl (e, h) ↦ arm (codes "tron") chain_type id _ tron (λ v. refl) (tron-valid id n) e h
          | inr (_, h) ↦ cc
        ]
      ]
    ]
  ]
]

parse_chain_sound :
    (rest : Text) (c : ChainLocation)
    → parse_chain rest ≡ some c
    → (chain_text c ≡ rest) × (is_valid_chain c ≡ true)
unfolding parse_chain SoundChain
parse_chain_sound rest c h =
    let ((chain_type, id), e, h) = and_then-some (split_once rest) h in
    elim (branch (is_empty id || any (λ c. c == colon) id) h) [
      | inl (_, h) ↦ cc
      | inr (n, h) ↦
          let (text, valid) = chain_of_sound chain_type id c (or_false (is_empty id) n) h in
          (text ∙ sym (split_once_sound rest chain_type id e), valid)
    ]

SoundLocation : Text → Text → AssetLocation → Type 0
SoundLocation kind rest loc = (to_canonical loc ≡ kind ++ colon ∷ rest) × (is_valid loc ≡ true)

chain-arm :
    (kind rest : Text) {loc : AssetLocation}
    → text_eq kind (codes "chain") ≡ true
    → and_then (parse_chain rest) (λ c. some (chain c)) ≡ some loc
    → SoundLocation kind rest loc
unfolding SoundLocation to_canonical
chain-arm kind rest {loc} e h =
    let (c, p, m) = and_then-some (parse_chain rest) h in
    let (text, valid) = parse_chain_sound rest c p in
    subst (SoundLocation kind rest) (some_injective m) (
      ap (λ t. codes "chain:" ++ t) text
          ∙ ap (λ k. k ++ colon ∷ rest) (sym (text_eq_sound kind (codes "chain") e)),
      valid,
    )

account-arm :
    (name kind rest : Text) (make : Text → AssetLocation) {loc : AssetLocation}
    → ((v : Text) → to_canonical (make v) ≡ name ++ colon ∷ v)
    → ((v : Text) → is_valid (make v) ≡ not (is_empty v))
    → text_eq kind name ≡ true
    → and_then (non_empty rest) (λ t. some (make t)) ≡ some loc
    → SoundLocation kind rest loc
unfolding SoundLocation non_empty
account-arm name kind rest make {loc} prints valid e h =
    let (v, a, m) = and_then-some (non_empty rest) h in
    let (t, same) = accept-some (not (is_empty rest)) a in
    let made : make rest ≡ loc = ap make same ∙ some_injective m in
    subst (SoundLocation kind rest) made
      (prints rest ∙ ap (λ k. k ++ colon ∷ rest) (sym (text_eq_sound kind name e)), valid rest ∙ t)

location_of_sound :
    (kind rest : Text) (loc : AssetLocation)
    → location_of kind rest ≡ some loc
    → SoundLocation kind rest loc
unfolding location_of to_canonical
location_of_sound kind rest loc h = elim (branch (text_eq kind (codes "chain")) h) [
  | inl (e, h) ↦ chain-arm kind rest e h
  | inr (_, h) ↦ elim (branch (text_eq kind (codes "bank-account")) h) [
    | inl (e, h) ↦
        account-arm (codes "bank-account") kind rest bank_account (λ v. refl) (λ v. refl) e h
    | inr (_, h) ↦ elim (branch (text_eq kind (codes "mobile-wallet")) h) [
      | inl (e, h) ↦
          account-arm (codes "mobile-wallet") kind rest mobile_wallet (λ v. refl) (λ v. refl) e h
      | inr (_, h) ↦ cc
    ]
  ]
]

pub from_str_sound :
    (input : Text) (loc : AssetLocation)
    → from_str input ≡ some loc
    → (is_valid loc ≡ true) × (to_canonical loc ≡ input)
unfolding from_str SoundLocation
from_str_sound input loc h =
    let ((kind, rest), e, h) = and_then-some (split_once input) h in
    let (text, valid) = location_of_sound kind rest loc h in
    (valid, text ∙ sym (split_once_sound input kind rest e))
