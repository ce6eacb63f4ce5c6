-- ===== src/Asset/Search/Laws.antt =====
-- What the search of keetanetwork-anchor-client/src/services/asset_movement/metadata.rs accepts.

use anchor_rs.Prelude.{
  ℕ, ◌≡◌, ◌↔◌, ◌⊎◌, inl, inr, refl, sym, ap, subst, ◌∙◌, Bool, or_cases, and_true, branch, true,
  false, ◌||◌, Option, none, some, and_then, is_some_and, Text, List, [], ◌∷◌, any, Any, any_sound,
  any_complete, text_eq, text_eq_sound,
}
use anchor_rs.Json.{Value, get, as_array}
use anchor_rs.Asset.Search.{
  ProviderInfo, ProviderFilter, ProviderSearch, info_from_entry, is_none_or, equals, filter_accepts,
  parse_provider, orientation_matches, pair_matches, path_matches, entry_matches, accepts,
}

any-cong :
    {A : Type 0} {p q : A → Bool} → ((x : A) → p x ≡ q x) → (xs : List A) → any p xs ≡ any q xs
any-cong e [] = refl
any-cong e (x ∷ xs) = rw (e x, any-cong e xs) refl

is_some_and-cong :
    {A : Type 0} {p q : A → Bool}
    → ((x : A) → p x ≡ q x)
    → (o : Option A) → is_some_and o p ≡ is_some_and o q
is_some_and-cong e none = refl
is_some_and-cong e (some x) = e x

is_some_and-true :
    {A : Type 0} {p : A → Bool} (o : Option A)
    → is_some_and o p ≡ true
    → (a : A) × (o ≡ some a) × (p a ≡ true)
is_some_and-true none h = cc
is_some_and-true (some a) h = (a, refl, h)

module _ (to_lowercase : Text → Text) (keccak256 : Text → List ℕ) where
  -- A path with two ends that match in one of the two directions.
  pub Connects : ProviderSearch → Value → Type 0
  Connects search path =
      (first : Value) × (second : Value) × (and_then (get "pair" path) as_array
        ≡ some (first ∷ second ∷ []))
      × ((orientation_matches to_lowercase keccak256 search first second ≡ true)
          ⊎ (orientation_matches to_lowercase keccak256 search second first ≡ true))

  -- An entry with a path that connects.
  pub Offers : ProviderSearch → Value → Type 0
  Offers search entry =
      (paths : List Value) × (and_then (get "paths" entry) as_array ≡ some paths)
      × Any (Connects search) paths

  pair-ends :
      (search : ProviderSearch) (ends : List Value)
      → pair_matches to_lowercase keccak256 search ends ≡ true
      → (first : Value) × (second : Value) × (ends ≡ first ∷ second ∷ [])
        × ((orientation_matches to_lowercase keccak256 search first second ≡ true)
            ⊎ (orientation_matches to_lowercase keccak256 search second first ≡ true))
  pair-ends search [] h = cc
  pair-ends search (first ∷ []) h = cc
  pair-ends search (first ∷ second ∷ []) h = (first, second, refl, or_cases _ _ h)
  pair-ends search (first ∷ second ∷ third ∷ ends) h = cc

  connects :
      (search : ProviderSearch) (path : Value)
      → path_matches to_lowercase keccak256 search path ≡ true
      → Connects search path
  unfolding path_matches Connects
  connects search path h =
      let (ends, e, h) = is_some_and-true (and_then (get "pair" path) as_array) h in
      let (first, second, shape, way) = pair-ends search ends h in
      (first, second, e ∙ ap some shape, way)

  or_intro : (a b : Bool) → (a ≡ true) ⊎ (b ≡ true) → (a || b) ≡ true
  or_intro a b (inl e) = rw e refl
  or_intro true b (inr e) = refl
  or_intro false b (inr e) = e

  connected :
      (search : ProviderSearch) (path : Value)
      → Connects search path
      → path_matches to_lowercase keccak256 search path ≡ true
  unfolding path_matches Connects
  connected search path (first, second, e, way) =
      ap (λ o. is_some_and o (pair_matches to_lowercase keccak256 search)) e
      ∙ or_intro (orientation_matches to_lowercase keccak256 search first second)
          (orientation_matches to_lowercase keccak256 search second first) way

  offers :
      (search : ProviderSearch) (entry : Value)
      → entry_matches to_lowercase keccak256 search entry ≡ true
      → Offers search entry
  unfolding entry_matches Offers
  offers search entry h =
      let (paths, e, h) = is_some_and-true (and_then (get "paths" entry) as_array) h in
      (paths, e, any_sound (path_matches to_lowercase keccak256 search) (connects search) paths h)

  offered :
      (search : ProviderSearch) (entry : Value)
      → Offers search entry
      → entry_matches to_lowercase keccak256 search entry ≡ true
  unfolding entry_matches Offers
  offered search entry (paths, e, h) =
      ap (λ o. is_some_and o (any (path_matches to_lowercase keccak256 search))) e
      ∙ any_complete (path_matches to_lowercase keccak256 search) (connected search) paths h

  -- A provider is accepted exactly when one of its supported assets has a path of two ends that satisfies
  -- the search in one of its two directions.
  pub accepts_iff :
      (search : ProviderSearch) (provider : ProviderInfo)
      → (accepts to_lowercase keccak256 search provider ≡ true)
        ↔ Any (Offers search) provider.supported_assets
  unfolding accepts
  accepts_iff search provider = (
    any_sound (entry_matches to_lowercase keccak256 search) (offers search)
        provider.supported_assets,
    any_complete (entry_matches to_lowercase keccak256 search) (offered search)
        provider.supported_assets,
  )

-- A filter keeps a provider: its id, and the account that signed it, are the ones that the filter names.
pub record Kept (filter : ProviderFilter) (provider : ProviderInfo) : Type 0 where
  pub by_id : (wanted : Text) → filter.id ≡ some wanted → wanted ≡ provider.id
  pub by_account : (wanted : Text) → filter.account ≡ some wanted → provider.account ≡ some wanted

none_or-true :
    {A : Type 0} (o : Option A) (p : A → Bool)
    → is_none_or o p ≡ true
    → (a : A) → o ≡ some a
    → p a ≡ true
none_or-true none p h a e = cc
none_or-true (some b) p h a e = sym (ap (λ o. is_none_or o p) e) ∙ h

equals-true : (o : Option Text) (t : Text) → equals o t ≡ true → o ≡ some t
equals-true none t h = cc
equals-true (some s) t h = ap some (text_eq_sound s t h)

kept :
    (filter : ProviderFilter) (provider : ProviderInfo)
    → filter_accepts filter provider ≡ true
    → Kept filter provider
unfolding filter_accepts
kept filter provider h =
    let (i, a) = and_true h in
    record {
      by_id = λ wanted e.
          text_eq_sound wanted provider.id
            (none_or-true filter.id (λ id. text_eq id provider.id) i wanted e);
      by_account = λ wanted e.
          equals-true provider.account wanted
            (none_or-true filter.account (λ account. equals provider.account account) a wanted e);
    }

some_injective : {A : Type 0} {a b : A} → some a ≡ some b → a ≡ b
some_injective h = cc

-- A provider that a query returns is the one read from the metadata under the queried key, and it has the
-- id and the signing account that the filter asks for.
pub parse_provider-kept :
    (id : Text) (entry : Value) (filter : ProviderFilter) (provider : ProviderInfo)
    → parse_provider id entry filter ≡ some provider
    → (info_from_entry id entry ≡ provider) × Kept filter provider
unfolding parse_provider
parse_provider-kept id entry filter provider h =
    elim (branch (filter_accepts filter (info_from_entry id entry)) h) [
      | inl (accepted, e) ↦
          let same : info_from_entry id entry ≡ provider = some_injective e in
          (same, subst (Kept filter) same (kept filter (info_from_entry id entry) accepted))
      | inr (_, e) ↦ cc
    ]
