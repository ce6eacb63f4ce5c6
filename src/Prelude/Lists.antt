-- ===== src/Prelude/Lists.antt =====
-- Lists measured by native numbers, with the iterator methods that the sources call.
use Prim.Native.Nat.{ℕ, zero, suc, ◌+◌}
use mathlib.Core.Path.{◌≡◌, refl}
use mathlib.Core.Logic.{◌⊎◌, inl, inr}
use mathlib.Core.Bool.{Bool, true, false, ◌&&◌, ◌||◌, or-true}
use mathlib.Core.Option.{Option, none, some}
use mathlib.Core.List.{List, [], ◌∷◌, ◌++◌, map}
use native.Mathlib.Omega.{arith}

abbrev pub filter_some {κ} : {B : Type κ} → Option B → List B → List B
filter_some none ys = ys
filter_some (some y) ys = y ∷ ys

module _ {ℓ} {A : Type ℓ} where
  abbrev pub length : List A → ℕ
  length [] = 0
  length (x ∷ xs) = suc (length xs)

  abbrev pub get_elem? : List A → ℕ → Option A
  get_elem? [] i = none
  get_elem? (x ∷ xs) zero = some x
  get_elem? (x ∷ xs) (suc i) = get_elem? xs i

  -- `Iterator::any` and `Iterator::all`.
  abbrev pub any : (A → Bool) → List A → Bool
  any p [] = false
  any p (x ∷ xs) = p x || any p xs

  abbrev pub all : (A → Bool) → List A → Bool
  all p [] = true
  all p (x ∷ xs) = p x && all p xs

  -- `Vec::is_empty`.
  abbrev pub is_empty : List A → Bool
  is_empty [] = true
  is_empty (x ∷ xs) = false

  abbrev pub All {κ} : (A → Type κ) → List A → Type κ
  All P [] = Unit
  All P (x ∷ xs) = P x × All P xs

  -- `Iterator::filter_map`.
  abbrev pub filter_map {κ} : {B : Type κ} → (A → Option B) → List A → List B
  filter_map f [] = []
  filter_map f (x ∷ xs) = filter_some (f x) (filter_map f xs)

module _ {ℓ} {A : Type ℓ} where
  pub length-append : (xs ys : List A) → length (xs ++ ys) ≡ length xs + length ys
  length-append [] ys = omega arith
  length-append (x ∷ xs) ys = omega (arith, length-append xs ys)

-- Some element has the property.
abbrev pub Any {ℓ} : {A : Type ℓ} → (A → Type 0) → List A → Type 0
Any P [] = ⊥
Any P (x ∷ xs) = P x ⊎ Any P xs

pub or_cases : (a b : Bool) → (a || b) ≡ true → (a ≡ true) ⊎ (b ≡ true)
or_cases true b h = inl refl
or_cases false b h = inr h

pub any_sound {ℓ} :
    {A : Type ℓ} {P : A → Type 0} (p : A → Bool)
    → ((x : A) → p x ≡ true → P x)
    → (xs : List A) → any p xs ≡ true
    → Any P xs
any_sound p s [] h = cc
any_sound p s (x ∷ xs) h = elim (or_cases (p x) (any p xs) h) [
  | inl e ↦ inl (s x e)
  | inr e ↦ inr (any_sound p s xs e)
]

pub any_complete {ℓ} :
    {A : Type ℓ} {P : A → Type 0} (p : A → Bool)
    → ((x : A) → P x → p x ≡ true)
    → (xs : List A) → Any P xs
    → any p xs ≡ true
any_complete p c [] h = absurd h
any_complete p c (x ∷ xs) (inl h) = rw (c x h) refl
any_complete p c (x ∷ xs) (inr h) = rw (any_complete p c xs h) (or-true (p x))

pub any-map {ℓ κ} :
    {A : Type ℓ} {B : Type κ} (p : B → Bool) (f : A → B) (xs : List A)
    → any p (map f xs) ≡ any (λ x. p (f x)) xs
any-map p f [] = refl
any-map p f (x ∷ xs) = rw (any-map p f xs) refl
