-- ===== src/Container/Merge.antt =====
-- `merge_principals` of keetanetwork-anchor/src/encrypted_container/mod.rs, with `swap_remove` of a
-- vector: the last element takes the place of the one that is taken out.
pub mod Laws
use anchor_rs.Prelude.{
  ℕ, zero, suc, Bool, Option, none, some, List, [], ◌∷◌, text_eq, if◌then◌else◌,
}
use anchor_rs.Prelude.Outcomes.{Outcome, success, failure, ◌>>=◌}
use anchor_rs.Container.{Bytes, KeyStore, Crypto, Result}
use anchor_rs.Container.Codec.{account_from_public_key}

module _ {ℓ} {A : Type ℓ} where
  abbrev pub later : Option (ℕ × A) → Option (ℕ × A)
  later none = none
  later (some (i, y)) = some (suc i, y)

  -- `iter().position(matches)`, with the element that is found.
  unfoldable pub position : (A → Bool) → List A → Option (ℕ × A)
  position matches [] = none
  position matches (x ∷ xs) = if matches x then some (0, x) else later (position matches xs)

  abbrev pub after : A → List A → List A
  after x [] = x ∷ []
  after x (y ∷ ys) = y ∷ x ∷ ys

  -- The last element, moved to the front.
  unfoldable pub move_last : List A → List A
  move_last [] = []
  move_last (x ∷ xs) = after x (move_last xs)

  -- What `swap_remove(i)` leaves.
  unfoldable pub swap_remove : List A → ℕ → List A
  unfolding move_last
  swap_remove [] i = []
  swap_remove (x ∷ xs) zero = move_last xs
  swap_remove (x ∷ xs) (suc i) = x ∷ swap_remove xs i

module _ (crypto : Crypto) where
  open crypto use {GenericAccount, public_key_with_type}

  abbrev pub has_key : Bytes → GenericAccount → Bool
  has_key key principal = text_eq (public_key_with_type principal) key

  -- The arms of the `match` on the position.
  unfoldable pub substitute :
      Bytes
      → List GenericAccount
      → Option (ℕ × GenericAccount)
      → Result (GenericAccount × List GenericAccount)
  substitute key remaining none = do
    account ← account_from_public_key crypto key
    success (account, remaining)
  substitute key remaining (some (index, principal)) =
      success (principal, swap_remove remaining index)

  -- The account that stands for a store, with the provided accounts that remain.
  unfoldable pub account_for :
      Bytes → List GenericAccount → Result (GenericAccount × List GenericAccount)
  account_for key remaining = substitute key remaining (position (has_key key) remaining)

  unfoldable pub merge_principals :
      List KeyStore → List GenericAccount → Result (List GenericAccount)
  merge_principals [] remaining = success []
  merge_principals (store ∷ stores) remaining = do
    (account, rest) ← account_for store.public_key remaining
    merged ← merge_principals stores rest
    success (account ∷ merged)
