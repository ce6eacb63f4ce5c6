-- ===== src/Signing/Canonical/Order.antt =====
-- The order of an object's entries: keetanetwork-anchor/src/signing/canonical.rs.
use anchor_rs.Prelude.{
  ℕ, ◌≡◌, ◌≢◌, refl, ap, sym, subst, ◌∙◌, Ordering, Option, some, Text, List, [], ◌∷◌, arith,
}
use anchor_rs.Json.{Value, array, object, Items, nil, cons, Fields, end, field}
use anchor_rs.Signing.Canonical.{
  encode_utf16, cmp, cmp_utf16, insert_sorted, sort_entries, count_nodes, count_items, count_fields,
  canonicalize_into,
}
use anchor_rs.Signing.Canonical.Reference.{normalize, normalize_items, normalize_fields, print}
use anchor_rs.Signing.Canonical.Machine.{Room, canonicalize_into-print}

-- `cmp` is a total order.
cmp-eq : (a b : List ℕ) → cmp a b ≡ Ordering.eq → a ≡ b
unfolding cmp
cmp-eq [] [] h = refl
cmp-eq [] (y ∷ b) h = cc
cmp-eq (x ∷ a) [] h = cc
cmp-eq (x ∷ a) (y ∷ b) h = ground (arith, cmp-eq a b)

cmp_refl : (a : List ℕ) → cmp a a ≡ Ordering.eq
unfolding cmp
cmp_refl [] = refl
cmp_refl (x ∷ a) = ground (arith, cmp_refl a)

cmp-gt_of_lt : (a b : List ℕ) → cmp a b ≡ Ordering.lt → cmp b a ≡ Ordering.gt
unfolding cmp
cmp-gt_of_lt [] [] h = cc
cmp-gt_of_lt [] (y ∷ b) h = refl
cmp-gt_of_lt (x ∷ a) [] h = cc
cmp-gt_of_lt (x ∷ a) (y ∷ b) h = ground (arith, cmp-gt_of_lt a b)

cmp-lt_of_gt : (a b : List ℕ) → cmp a b ≡ Ordering.gt → cmp b a ≡ Ordering.lt
unfolding cmp
cmp-lt_of_gt [] [] h = cc
cmp-lt_of_gt [] (y ∷ b) h = cc
cmp-lt_of_gt (x ∷ a) [] h = refl
cmp-lt_of_gt (x ∷ a) (y ∷ b) h = ground (arith, cmp-lt_of_gt a b)

cmp-lt_trans :
    (a b c : List ℕ) → cmp a b ≡ Ordering.lt → cmp b c ≡ Ordering.lt → cmp a c ≡ Ordering.lt
unfolding cmp
cmp-lt_trans [] [] [] h k = cc
cmp-lt_trans [] (y ∷ b) [] h k = cc
cmp-lt_trans [] b (z ∷ c) h k = refl
cmp-lt_trans (x ∷ a) [] c h k = cc
cmp-lt_trans (x ∷ a) (y ∷ b) [] h k = cc
cmp-lt_trans (x ∷ a) (y ∷ b) (z ∷ c) h k = ground (arith, cmp-lt_trans a b c)

-- Two insertions commute, unless the keys have the same code units.
insert_sorted_comm :
    (j k : Text) (v w : Value) (fs : Fields)
    → cmp_utf16 j k ≢ Ordering.eq
    → insert_sorted j v (insert_sorted k w fs) ≡ insert_sorted k w (insert_sorted j v fs)
unfolding insert_sorted cmp_utf16
insert_sorted_comm j k v w end d = ground (
  arith,
  cmp-gt_of_lt (encode_utf16 j) (encode_utf16 k),
  cmp-lt_of_gt (encode_utf16 j) (encode_utf16 k),
)
insert_sorted_comm j k v w (field i u fs) d =
    let first = encode_utf16 j in
    let second = encode_utf16 k in
    let head = encode_utf16 i in
    ground (
      arith,
      insert_sorted_comm j k v w fs d,
      cmp-gt_of_lt first second,
      cmp-lt_of_gt first second,
      cmp-lt_of_gt first head,
      cmp-gt_of_lt head second,
      cmp-gt_of_lt head first,
      cmp-lt_of_gt second head,
      cmp-lt_trans head first second,
      cmp-lt_trans head second first,
      cmp-eq first head,
      cmp-eq second head,
    )

-- The same value but for the order of entries, at any depth: neighbours may be swapped where their
-- keys differ in code units.
mutual
  pub data Same : Value → Value → Type 0 where
    same : {v : Value} → Same v v
    in_array : {vs ws : Items} → SameItems vs ws → Same (array vs) (array ws)
    in_object : {fs gs : Fields} → SameFields fs gs → Same (object fs) (object gs)

  pub data SameItems : Items → Items → Type 0 where
    no_item : SameItems nil nil
    item :
        {v w : Value} {vs ws : Items}
        → Same v w
        → SameItems vs ws
        → SameItems (cons v vs) (cons w ws)

  pub data SameFields : Fields → Fields → Type 0 where
    no_entry : SameFields end end
    entry :
        {k : Text} {v w : Value} {fs gs : Fields}
        → Same v w
        → SameFields fs gs
        → SameFields (field k v fs) (field k w gs)
    swap :
        {j k : Text} {v w : Value} {fs : Fields}
        → cmp_utf16 j k ≢ Ordering.eq
        → SameFields (field j v (field k w fs)) (field k w (field j v fs))
    trans : {fs gs hs : Fields} → SameFields fs gs → SameFields gs hs → SameFields fs hs

mutual
  unfolding normalize sort_entries

  normalize-Same : {v w : Value} → Same v w → normalize v ≡ normalize w
  normalize-Same same = refl
  normalize-Same (in_array h) = ap array (normalize-SameItems h)
  normalize-Same (in_object h) = ap object (normalize-SameFields h)

  normalize-SameItems : {vs ws : Items} → SameItems vs ws → normalize_items vs ≡ normalize_items ws
  normalize-SameItems no_item = refl
  normalize-SameItems (item h k) = cc (normalize-Same h, normalize-SameItems k)

  normalize-SameFields :
      {fs gs : Fields}
      → SameFields fs gs
      → sort_entries (normalize_fields fs) ≡ sort_entries (normalize_fields gs)
  normalize-SameFields no_entry = refl
  normalize-SameFields (entry h k) = cc (normalize-Same h, normalize-SameFields k)
  normalize-SameFields (swap {j} {k} {v} {w} {fs} d) =
      insert_sorted_comm j k (normalize v) (normalize w) (sort_entries (normalize_fields fs)) d
  normalize-SameFields (trans h k) = normalize-SameFields h ∙ normalize-SameFields k

mutual
  unfolding count_nodes

  count-Same : {v w : Value} → Same v w → count_nodes v ≡ count_nodes w
  count-Same same = refl
  count-Same (in_array h) = omega (arith, count-SameItems h)
  count-Same (in_object h) = omega (arith, count-SameFields h)

  count-SameItems : {vs ws : Items} → SameItems vs ws → count_items vs ≡ count_items ws
  count-SameItems no_item = refl
  count-SameItems (item h k) = omega (arith, count-Same h, count-SameItems k)

  count-SameFields : {fs gs : Fields} → SameFields fs gs → count_fields fs ≡ count_fields gs
  count-SameFields no_entry = refl
  count-SameFields (entry h k) = omega (arith, count-Same h, count-SameFields k)
  count-SameFields (swap d) = omega arith
  count-SameFields (trans h k) = count-SameFields h ∙ count-SameFields k

-- The order in which the entries of an object were inserted never shows in the canonical text, at any
-- depth, for values within the node limit.
pub canonicalize_into-Same :
    {v w : Value} (limit : Option ℕ)
    → Same v w
    → Room limit (count_nodes v)
    → canonicalize_into v limit ≡ canonicalize_into w limit
canonicalize_into-Same {v} {w} limit h room =
    canonicalize_into-print v limit room
    ∙ ap (λ u. some (print u)) (normalize-Same h)
    ∙ sym (canonicalize_into-print w limit (subst (Room limit) (count-Same h) room))

-- The keys of a list of entries rise strictly or repeat, in the order of their code units.
abbrev pub Rises : List ℕ → Fields → Type 0
Rises k end = Unit
Rises k (field j v fs) = (cmp k (encode_utf16 j) ≢ Ordering.gt) × Rises (encode_utf16 j) fs

abbrev pub IsSorted : Fields → Type 0
IsSorted end = Unit
IsSorted (field k v fs) = Rises (encode_utf16 k) fs

Rises-insert_sorted :
    (i : List ℕ) (k : Text) (v : Value) (fs : Fields)
    → cmp i (encode_utf16 k) ≢ Ordering.gt
    → Rises i fs
    → Rises i (insert_sorted k v fs)
unfolding insert_sorted cmp_utf16
Rises-insert_sorted i k v end p h = (p, tt)
Rises-insert_sorted i k v (field j w fs) p (q, h) = ground (
  arith,
  Rises-insert_sorted (encode_utf16 j) k v fs,
  cmp-lt_of_gt (encode_utf16 k) (encode_utf16 j),
)

insert_sorted-IsSorted :
    (k : Text) (v : Value) (fs : Fields) → IsSorted fs → IsSorted (insert_sorted k v fs)
unfolding insert_sorted cmp_utf16
insert_sorted-IsSorted k v end h = tt
insert_sorted-IsSorted k v (field j w fs) h = ground (
  arith,
  Rises-insert_sorted (encode_utf16 j) k v fs,
  cmp-lt_of_gt (encode_utf16 k) (encode_utf16 j),
)

-- The entries that are written are in the order of the UTF-16 code units of their keys.
pub sort_entries-IsSorted : (fs : Fields) → IsSorted (sort_entries fs)
unfolding sort_entries
sort_entries-IsSorted end = tt
sort_entries-IsSorted (field k v fs) =
    insert_sorted-IsSorted k v (sort_entries fs) (sort_entries-IsSorted fs)
