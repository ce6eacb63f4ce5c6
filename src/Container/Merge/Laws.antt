-- ===== src/Container/Merge/Laws.antt =====
-- Which accounts `merge_principals` (keetanetwork-anchor/src/encrypted_container/mod.rs) returns.
use mathlib.Core.Bool.{Bool-set, or-true}
use mathlib.Core.Logic.{∥∥₁_elim}
use mathlib.Core.List.{Permᴰ, Perm, cons≢nil}
use mathlib.Core.List.Perm
use anchor_rs.Prelude.{
  ℕ, suc, Bool, true, false, not, ◌||◌, ◌&&◌, ◌⊎◌, Option, none, some, List, [], ◌∷◌, map, any,
  any-map, ◌≡◌, refl, sym, ◌∙◌, ap, subst, Any, inl, inr, text_eq, text_eq_refl, text_eq_sound,
  or_cases, or_false_cases, arith, branch, Option-cases,
}
use anchor_rs.Prelude.Outcomes.{success, ok_or, ok_or-success, bind-success, success_injective}
use anchor_rs.Container.{Bytes, KeyStore, Crypto, account_error}
use anchor_rs.Container.Codec.{account_from_public_key}
use anchor_rs.Container.Codec.Laws.{Lawful}
use anchor_rs.Container.Merge.{
  position, substitute, later, after, move_last, swap_remove, has_key, account_for,
  merge_principals,
}

or_swap : (a b c : Bool) → (a || (b || c)) ≡ (b || (a || c))
or_swap true true c = refl
or_swap true false c = refl
or_swap false b c = refl

not-false : {b : Bool} → not b ≡ false → b ≡ true
not-false {b} h = ground arith

module _ {A : Type 0} where
  after-Perm : (x : A) (ys : List A) → Perm (after x ys) (x ∷ ys)
  after-Perm x [] = Perm.refl _
  after-Perm x (y ∷ ys) = Perm.swap x y ys

  pub move_last-Perm : (xs : List A) → Perm (move_last xs) xs
  unfolding move_last
  move_last-Perm [] = Perm.nil
  move_last-Perm (x ∷ xs) =
      Perm.trans (after-Perm x (move_last xs)) (Perm.cons x (move_last-Perm xs))

  later-some :
      (o : Option (ℕ × A)) (i : ℕ) (y : A)
      → later o ≡ some (i, y)
      → (j : ℕ) × (i ≡ suc j) × (o ≡ some (j, y))
  later-some none i y h = cc
  later-some (some (j, z)) i y h = (j, cc, cc)

  later-none : (o : Option (ℕ × A)) → later o ≡ none → o ≡ none
  later-none none h = refl
  later-none (some (j, z)) h = cc

  -- The element found matches, and with what remains makes up the list.
  pub position-some :
      (p : A → Bool) (xs : List A) (i : ℕ) (y : A)
      → position p xs ≡ some (i, y)
      → (p y ≡ true) × Perm (y ∷ swap_remove xs i) xs
  unfolding position swap_remove
  position-some p [] i y h = cc
  position-some p (x ∷ xs) i y h = elim (branch (p x) h) [
    | inl (e, h1) ↦
        let zero_index : i ≡ 0 = cc in
        let same : y ≡ x = cc in
        (rw same e, rw (zero_index, same) (Perm.cons x (move_last-Perm xs)))
    | inr (e, h1) ↦
        let (j, s, h2) = later-some (position p xs) i y h1 in
        let (m, q) = position-some p xs j y h2 in
        (m, rw s (Perm.trans (Perm.swap x y _) (Perm.cons x q)))
  ]

  pub position-none : (p : A → Bool) (xs : List A) → position p xs ≡ none → any p xs ≡ false
  unfolding position
  position-none p [] h = refl
  position-none p (x ∷ xs) h = elim (branch (p x) h) [
    | inl (e, h1) ↦ cc
    | inr (e, h1) ↦ rw e (position-none p xs (later-none (position p xs) h1))
  ]

  any-Permᴰ : (p : A → Bool) (xs ys : List A) → Permᴰ xs ys → any p xs ≡ any p ys
  any-Permᴰ p _ _ Permᴰ.nil = refl
  any-Permᴰ p (x ∷ xs) (y ∷ ys) (Permᴰ.cons e d) = rw (e, any-Permᴰ p xs ys d) refl
  any-Permᴰ p (a ∷ b ∷ l) (_ ∷ _ ∷ _) (Permᴰ.swap e f) = rw (e, f) (or_swap _ _ (any p l))
  any-Permᴰ p xs zs (Permᴰ.trans d e) = any-Permᴰ p xs _ d ∙ any-Permᴰ p _ zs e

  pub any-Perm : (p : A → Bool) (xs ys : List A) → Perm xs ys → any p xs ≡ any p ys
  any-Perm p xs ys h = ∥∥₁_elim h (Bool-set _ _) (any-Permᴰ p xs ys)

-- What `any` finds in the list that is made up of an element and a rest.
any-of_Perm :
    {A : Type 0} (p : A → Bool) (x : A) (rest xs : List A)
    → Perm (x ∷ rest) xs
    → any p xs ≡ (p x || any p rest)
any-of_Perm p x rest xs q = sym (any-Perm p (x ∷ rest) xs q)

module _ (crypto : Crypto) (lawful : Lawful crypto) where
  open crypto use {GenericAccount, public_key_with_type, has_private_key}

  -- The account that stands for a store has the store's key; it is taken from the list or read anew.
  account_for-cases :
      (key : Bytes) (remaining rest : List GenericAccount) (account : GenericAccount)
      → account_for crypto key remaining ≡ success (account, rest)
      → (public_key_with_type account ≡ key)
        × (Perm (account ∷ rest) remaining
            ⊎ ((any (has_key crypto key) remaining ≡ false) × (rest ≡ remaining)))
  unfolding account_for substitute account_from_public_key
  account_for-cases key remaining rest account h =
      elim (Option-cases (position (has_key crypto key) remaining)) [
        | inl n ↦
            let (a, f, h1) =
              bind-success (ok_or account_error (crypto.from_public_key key))
                (subst (λ o. substitute crypto key remaining o ≡ success (account, rest)) n h) in
            let e = success_injective h1 in
            (
              lawful.keeps_public_key key account
                  (ok_or-success account_error _ a f ∙ ap (λ p. some (p.0)) e),
              inr (position-none _ remaining n, sym (ap (λ p. p.1) e)),
            )
        | inr ((i, y), s) ↦
            let e =
              success_injective
                (subst (λ o. substitute crypto key remaining o ≡ success (account, rest)) s h) in
            let (m, q) = position-some (has_key crypto key) remaining i y s in
            rw (← ap (λ p. p.0) e, ← ap (λ p. p.1) e) (text_eq_sound _ key m, inl q)
      ]

  -- The accounts returned have the keys of the stores, in their order.
  pub merge_principals-keys :
      (stores : List KeyStore) (provided merged : List GenericAccount)
      → merge_principals crypto stores provided ≡ success merged
      → map public_key_with_type merged ≡ map (λ store. store.public_key) stores
  unfolding merge_principals
  merge_principals-keys [] provided merged h = rw (← success_injective h) refl
  merge_principals-keys (store ∷ stores) provided merged h =
      let ((account, rest), a, h1) =
        bind-success (account_for crypto store.public_key provided) h in
      let (others, o, h2) = bind-success (merge_principals crypto stores rest) h1 in
      let (named, _) = account_for-cases store.public_key provided rest account a in
      rw (← success_injective h2, named, merge_principals-keys stores rest others o) refl

  -- Accounts that have the keys of the stores already, in some order, are all kept and none is read
  -- anew.
  pub merge_principals-Perm :
      (stores : List KeyStore) (provided merged : List GenericAccount)
      → Perm (map public_key_with_type provided) (map (λ store. store.public_key) stores)
      → merge_principals crypto stores provided ≡ success merged
      → Perm merged provided
  unfolding merge_principals
  merge_principals-Perm [] [] merged p h = rw (← success_injective h) Perm.nil
  merge_principals-Perm [] (a ∷ provided) merged p h = absurd (cons≢nil (Perm.eq-nil p))
  merge_principals-Perm (store ∷ stores) provided merged p h =
      let ((account, rest), a, h1) =
        bind-success (account_for crypto store.public_key provided) h in
      let (others, o, h2) = bind-success (merge_principals crypto stores rest) h1 in
      let (named, taken) = account_for-cases store.public_key provided rest account a in
      elim taken [
        | inl q ↦
            let keys = Perm.trans (Perm.map public_key_with_type q) p in
            rw (← success_injective h2) (
              Perm.trans
                (Perm.cons account (
                  merge_principals-Perm stores rest others
                    (Perm.cons_inv (
                      subst
                        (λ k.
                          Perm (k ∷ map public_key_with_type rest)
                            (map (λ store. store.public_key) (store ∷ stores)))
                        named keys))
                    o))
                q)
        | inr (n, _) ↦
            let here : any (has_key crypto store.public_key) provided ≡ true =
              sym (any-map (λ k. text_eq k store.public_key) public_key_with_type provided)
              ∙ any-Perm (λ k. text_eq k store.public_key) _ _ p
              ∙ ap
                  (λ b.
                    b
                    || any (λ k. text_eq k store.public_key)
                        (map (λ store. store.public_key) stores))
                  (text_eq_refl store.public_key) in
            cc
      ]

  abbrev pub opens : Bytes → GenericAccount → Bool
  opens key b = has_key crypto key b && has_private_key b

  abbrev pub lacks_private_key : GenericAccount → Bool
  lacks_private_key b = not (has_private_key b)

  pub merge_principals-opens :
      (key : Bytes) (stores : List KeyStore) (provided merged : List GenericAccount)
      → Any (λ store. store.public_key ≡ key) stores
      → any (has_key crypto key) provided ≡ true
      → any lacks_private_key provided ≡ false
      → merge_principals crypto stores provided ≡ success merged
      → any (opens key) merged ≡ true
  unfolding merge_principals
  merge_principals-opens key [] provided merged m k f h = absurd m
  merge_principals-opens key (store ∷ stores) provided merged m k f h =
      let ((account, rest), a, h1) =
        bind-success (account_for crypto store.public_key provided) h in
      let (others, o, h2) = bind-success (merge_principals crypto stores rest) h1 in
      let (named, taken) = account_for-cases store.public_key provided rest account a in
      rw (← success_injective h2) (elim taken [
        | inl q ↦
            let (l, f1) =
              or_false_cases (sym (any-of_Perm lacks_private_key account rest provided q) ∙ f) in
            let private : has_private_key account ≡ true = not-false l in
            elim (or_cases (has_key crypto key account) (any (has_key crypto key) rest)
              (sym (any-of_Perm (has_key crypto key) account rest provided q) ∙ k)) [
                | inl e ↦ rw (e, private) refl
                | inr k1 ↦ elim m [
                  | inl e ↦ rw (named ∙ e, text_eq_refl key, private) refl
                  | inr m1 ↦
                      rw (merge_principals-opens key stores rest others m1 k1 f1 o)
                        (or-true (opens key account))
                ]
              ]
        | inr (n, same) ↦ elim m [
          | inl e ↦
              let none_here : any (has_key crypto key) provided ≡ false =
                subst (λ k. any (has_key crypto k) provided ≡ false) e n in
              cc
          | inr m1 ↦
              rw
                (merge_principals-opens key stores provided others m1 k f
                  (subst (λ r. merge_principals crypto stores r ≡ success others) same o))
                (or-true (opens key account))
        ]
      ])
