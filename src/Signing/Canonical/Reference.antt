-- ===== src/Signing/Canonical/Reference.antt =====
-- Canonical JSON as a function on trees, beside the stack machine of
-- keetanetwork-anchor/src/signing/canonical.rs.
use anchor_rs.Prelude.{
  ℕ, ◌+◌, ◌≡◌, refl, ap, sym, ◌∙◌, true, false, Text, List, [], ◌∷◌, ◌++◌, codes, ltb,
  if◌then◌else◌, arith,
}
use mathlib.Core.Logic.{inl, inr}
use anchor_rs.Prelude.{Bool-cases}
use mathlib.Core.List.{append_assoc}
use anchor_rs.Json.{
  Value, null, bool, number, string, array, object, Items, nil, cons, Fields, end, field,
}
use anchor_rs.Signing.Canonical.{
  Result, ok, err, ◌>>=◌, Frame, emit, visit, write_number, escape_string, insert_sorted,
  sort_entries, item_frames, entry_frames,
}

-- Every object with its entries in the order of their keys.
unfoldable mutual
  pub normalize : Value → Value
  normalize null = null
  normalize (bool b) = bool b
  normalize (number n) = number n
  normalize (string s) = string s
  normalize (array vs) = array (normalize_items vs)
  normalize (object fs) = object (sort_entries (normalize_fields fs))

  pub normalize_items : Items → Items
  normalize_items nil = nil
  normalize_items (cons v vs) = cons (normalize v) (normalize_items vs)

  pub normalize_fields : Fields → Fields
  normalize_fields end = end
  normalize_fields (field k v fs) = field k (normalize v) (normalize_fields fs)

abbrev pub separated : ℕ → Text → Text
separated index t = if ltb 0 index then codes "," ++ t else t

-- The compact JSON text of a value, entries in the order given.
unfoldable mutual
  pub print : Value → Result Text
  print null = ok (codes "null")
  print (bool true) = ok (codes "true")
  print (bool false) = ok (codes "false")
  print (number n) = write_number n
  print (string s) = ok (escape_string s)
  print (array vs) = do rest ← print_items 0 vs; ok (codes "[" ++ rest)
  print (object fs) = do rest ← print_fields 0 fs; ok (codes "{" ++ rest)

  pub print_items : ℕ → Items → Result Text
  print_items index nil = ok (codes "]")
  print_items index (cons v vs) = do
    t ← print v
    rest ← print_items (index + 1) vs
    ok (separated index (t ++ rest))

  pub print_fields : ℕ → Fields → Result Text
  print_fields index end = ok (codes "}")
  print_fields index (field k v fs) = do
    t ← print v
    rest ← print_fields (index + 1) fs
    ok (separated index (escape_string k ++ codes ":" ++ t ++ rest))

-- Sorting looks at the keys alone.
normalize-insert_sorted :
    (k : Text) (v : Value) (fs : Fields)
    → normalize_fields (insert_sorted k v fs) ≡ insert_sorted k (normalize v) (normalize_fields fs)
unfolding normalize insert_sorted
normalize-insert_sorted k v end = refl
normalize-insert_sorted k v (field j w fs) = ground (arith, normalize-insert_sorted k v fs)

pub normalize-sort_entries :
    (fs : Fields) → normalize_fields (sort_entries fs) ≡ sort_entries (normalize_fields fs)
unfolding normalize sort_entries
normalize-sort_entries end = refl
normalize-sort_entries (field k v fs) =
    normalize-insert_sorted k v (sort_entries fs)
    ∙ ap (insert_sorted k (normalize v)) (normalize-sort_entries fs)

-- What a stack of frames still has to write.
unfoldable pub render : List Frame → Result Text
render [] = ok []
render (emit t ∷ stack) = do rest ← render stack; ok (t ++ rest)
render (visit v ∷ stack) = do t ← print (normalize v); rest ← render stack; ok (t ++ rest)

-- A text, then what the rest of the stack writes.
unfoldable pub then_render : Result Text → List Frame → Result Text
then_render r stack = do t ← r; rest ← render stack; ok (t ++ rest)

-- One item, then the items after it, then the rest of the stack.
regroup :
    (a b r : Result Text)
    → (do t ← a; rest ← (do u ← b; w ← r; ok (u ++ w)); ok (t ++ rest))
      ≡ (do t ← (do t ← a; u ← b; ok (t ++ u)); w ← r; ok (t ++ w))
regroup (ok a) (ok b) (ok r) = ap ok (sym (append_assoc a b r))
regroup (ok a) (ok b) (err e) = refl
regroup (ok a) (err e) r = refl
regroup (err e) b r = refl

-- A prefix moves over what follows.
prefix_moves :
    (p : Text) (a b r : Result Text)
    → (do x ← (do t ← (do t ← a; u ← b; ok (t ++ u)); w ← r; ok (t ++ w)); ok (p ++ x))
      ≡ (do t ← (do t ← a; u ← b; ok (p ++ (t ++ u))); w ← r; ok (t ++ w))
prefix_moves p (ok a) (ok b) (ok r) = ap ok (sym (append_assoc p (a ++ b) r))
prefix_moves p (ok a) (ok b) (err e) = refl
prefix_moves p (ok a) (err e) r = refl
prefix_moves p (err e) b r = refl

regroup_after :
    (p : Text) (a b r : Result Text)
    → (do x ← (do t ← a; rest ← (do u ← b; w ← r; ok (u ++ w)); ok (t ++ rest)); ok (p ++ x))
      ≡ (do t ← (do t ← a; u ← b; ok (p ++ (t ++ u))); w ← r; ok (t ++ w))
regroup_after p a b r =
    ap (λ (m : Result Text). do x ← m; ok (p ++ x)) (regroup a b r) ∙ prefix_moves p a b r

pub render-item_frames :
    (index : ℕ) (vs : Items) (stack : List Frame)
    → render (item_frames index vs ++ stack)
      ≡ then_render (print_items index (normalize_items vs)) stack
unfolding render then_render item_frames print normalize
render-item_frames index nil stack = refl
render-item_frames index (cons v vs) stack = elim (Bool-cases (ltb 0 index)) [
  | inl later ↦
      rw (later, render-item_frames (index + 1) vs stack)
        (regroup_after (codes ",") (print (normalize v))
          (print_items (index + 1) (normalize_items vs)) (render stack))
  | inr first ↦
      rw (first, render-item_frames (index + 1) vs stack)
        (regroup (print (normalize v)) (print_items (index + 1) (normalize_items vs))
          (render stack))
]

-- The text of an entry: its key, a colon, its value.
entry_regroup :
    (p : Text) (a b r : Result Text)
    → (do
      x ← (do t ← a; rest ← (do u ← b; w ← r; ok (u ++ w)); ok (t ++ rest))
      ok ((p ++ codes ":") ++ x))
      ≡ (do t ← (do t ← a; u ← b; ok (p ++ codes ":" ++ t ++ u)); w ← r; ok (t ++ w))
entry_regroup p (ok a) (ok b) (ok r) = simp append_assoc
entry_regroup p (ok a) (ok b) (err e) = refl
entry_regroup p (ok a) (err e) r = refl
entry_regroup p (err e) b r = refl

entry_regroup_after :
    (p : Text) (a b r : Result Text)
    → (do
      y ← (do
        x ← (do t ← a; rest ← (do u ← b; w ← r; ok (u ++ w)); ok (t ++ rest))
        ok ((p ++ codes ":") ++ x))
      ok (codes "," ++ y))
      ≡ (do t ← (do t ← a; u ← b; ok (codes "," ++ (p ++ codes ":" ++ t ++ u))); w ← r; ok (t ++ w))
entry_regroup_after p (ok a) (ok b) (ok r) = simp append_assoc
entry_regroup_after p (ok a) (ok b) (err e) = refl
entry_regroup_after p (ok a) (err e) r = refl
entry_regroup_after p (err e) b r = refl

pub render-entry_frames :
    (index : ℕ) (fs : Fields) (stack : List Frame)
    → render (entry_frames index fs ++ stack)
      ≡ then_render (print_fields index (normalize_fields fs)) stack
unfolding render then_render entry_frames print normalize
render-entry_frames index end stack = refl
render-entry_frames index (field k v fs) stack = elim (Bool-cases (ltb 0 index)) [
  | inl later ↦
      rw (later, render-entry_frames (index + 1) fs stack)
        (entry_regroup_after (escape_string k) (print (normalize v))
          (print_fields (index + 1) (normalize_fields fs)) (render stack))
  | inr first ↦
      rw (first, render-entry_frames (index + 1) fs stack)
        (entry_regroup (escape_string k) (print (normalize v))
          (print_fields (index + 1) (normalize_fields fs)) (render stack))
]
