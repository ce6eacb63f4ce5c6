-- ===== src/Signing/Canonical/Machine.antt =====
-- Steps of the stack machine of keetanetwork-anchor/src/signing/canonical.rs.
use mathlib.Core.List.{append_assoc, append-nil}
use mathlib.Core.Logic.{inl, inr, ◌⊎◌}
use anchor_rs.Prelude.{
  ℕ, suc, zero, ◌+◌, ◌-◌, ◌*◌, ◌≤◌, ◌<◌, ◌≡◌, refl, ap, sym, subst, ◌∙◌, true, false, Bool-cases,
  Option, none, some, is_some_and, Text, [], ◌∷◌, ◌++◌, List, codes, ltb, arith,
}
use anchor_rs.Json.{
  Value, null, bool, number, string, array, object, Items, nil, cons, Fields, end, field,
}
use anchor_rs.Signing.Canonical.{
  SigningError, Result, ok, err, ◌>>=◌, Frame, emit, visit, write_number, insert_sorted,
  sort_entries, item_frames, push_array, entry_frames, push_object, expand, handle, count_nodes,
  count_items, count_fields, canonicalize_into, output_too_large,
}
use anchor_rs.Signing.Canonical.Reference.{
  normalize, normalize_items, normalize_fields, normalize-sort_entries, print, print_items,
  print_fields, render, then_render, render-item_frames, render-entry_frames,
}

count_nodes-pos : (v : Value) → 0 < count_nodes v
unfolding count_nodes
count_nodes-pos (array vs) = omega arith
count_nodes-pos (object fs) = omega arith
count_nodes-pos _ = omega arith

-- The fuel and the visits that a stack still needs.
stack_weight : List Frame → ℕ
stack_weight [] = 0
stack_weight (emit t ∷ stack) = 1 + stack_weight stack
stack_weight (visit v ∷ stack) = 5 * count_nodes v - 2 + stack_weight stack

stack_nodes : List Frame → ℕ
stack_nodes [] = 0
stack_nodes (emit t ∷ stack) = stack_nodes stack
stack_nodes (visit v ∷ stack) = count_nodes v + stack_nodes stack

count-insert_sorted :
    (k : Text) (v : Value) (fs : Fields)
    → count_fields (insert_sorted k v fs) ≡ count_nodes v + count_fields fs
unfolding insert_sorted count_fields
count-insert_sorted k v end = refl
count-insert_sorted k v (field j w fs) = ground (arith, count-insert_sorted k v fs)

count-sort_entries : (fs : Fields) → count_fields (sort_entries fs) ≡ count_fields fs
unfolding sort_entries count_fields
count-sort_entries end = refl
count-sort_entries (field k v fs) =
    omega (arith, count-insert_sorted k v (sort_entries fs), count-sort_entries fs)

weight-item_frames :
    (index : ℕ) (vs : Items) (stack : List Frame)
    → stack_weight (item_frames index vs ++ stack) ≤ 1 + 5 * count_items vs + stack_weight stack
unfolding stack_weight item_frames count_items
weight-item_frames index nil stack = omega arith
weight-item_frames index (cons v vs) stack =
    ground (arith, count_nodes-pos v, weight-item_frames (index + 1) vs stack)

nodes-item_frames :
    (index : ℕ) (vs : Items) (stack : List Frame)
    → stack_nodes (item_frames index vs ++ stack) ≡ count_items vs + stack_nodes stack
unfolding stack_nodes item_frames count_items
nodes-item_frames index nil stack = omega arith
nodes-item_frames index (cons v vs) stack = ground (arith, nodes-item_frames (index + 1) vs stack)

weight-entry_frames :
    (index : ℕ) (fs : Fields) (stack : List Frame)
    → stack_weight (entry_frames index fs ++ stack) ≤ 1 + 5 * count_fields fs + stack_weight stack
unfolding stack_weight entry_frames count_fields
weight-entry_frames index end stack = omega arith
weight-entry_frames index (field k v fs) stack =
    ground (arith, count_nodes-pos v, weight-entry_frames (index + 1) fs stack)

nodes-entry_frames :
    (index : ℕ) (fs : Fields) (stack : List Frame)
    → stack_nodes (entry_frames index fs ++ stack) ≡ count_fields fs + stack_nodes stack
unfolding stack_nodes entry_frames count_fields
nodes-entry_frames index end stack = omega arith
nodes-entry_frames index (field k v fs) stack =
    ground (arith, nodes-entry_frames (index + 1) fs stack)

abbrev prepend : Text → Result Text → Result Text
prepend output r = do t ← r; ok (output ++ t)

prepend-text :
    (output t : Text) (r : Result Text)
    → prepend (output ++ t) r ≡ prepend output (do rest ← r; ok (t ++ rest))
prepend-text output t (ok r) = ap ok (append_assoc output t r)
prepend-text output t (err e) = refl

-- An opening bracket, then the frames of a container.
bracket :
    (output p : Text) (b r : Result Text)
    → prepend output (do x ← (do t ← b; w ← r; ok (t ++ w)); ok (p ++ x))
      ≡ prepend output (do t ← (do u ← b; ok (p ++ u)); w ← r; ok (t ++ w))
bracket output p (ok b) (ok r) = simp append_assoc
bracket output p (ok b) (err e) = refl
bracket output p (err e) r = refl

-- One expansion keeps what is still to be written, and pays for its frames.
abbrev Expands : Value → Text → List Frame → Result (Text × List Frame) → Type 0
Expands node output stack (ok (output', stack')) =
    (prepend output' (render stack') ≡ prepend output (render (visit node ∷ stack)))
    × (suc (stack_weight stack') ≤ stack_weight (visit node ∷ stack))
    × (suc (stack_nodes stack') ≡ stack_nodes (visit node ∷ stack))
Expands node output stack (err e) = prepend output (render (visit node ∷ stack)) ≡ err e

-- A scalar that `expand` writes at once.
abbrev Writes : Result Text → Text → List Frame → Result (Text × List Frame) → Type 0
Writes w output stack (ok (output', stack')) =
    (prepend output' (render stack')
      ≡ prepend output (do t ← w; rest ← render stack; ok (t ++ rest)))
    × (suc (stack_weight stack') ≤ 3 + stack_weight stack)
    × (suc (stack_nodes stack') ≡ 1 + stack_nodes stack)
Writes w output stack (err e) =
    prepend output (do t ← w; rest ← render stack; ok (t ++ rest)) ≡ err e

write_number-Expands :
    (w : Result Text) (output : Text) (stack : List Frame)
    → Writes w output stack (do text ← w; ok (output ++ text, stack))
write_number-Expands (ok t) output stack =
    (prepend-text output t (render stack), omega arith, omega arith)
write_number-Expands (err e) output stack = refl

expand-Expands :
    (node : Value) (output : Text) (stack : List Frame)
    → Expands node output stack (expand node output stack)
unfolding expand push_array push_object render then_render normalize print stack_weight stack_nodes
    count_nodes
expand-Expands null output stack = (prepend-text output _ (render stack), omega arith, omega arith)
expand-Expands (bool true) output stack =
    (prepend-text output _ (render stack), omega arith, omega arith)
expand-Expands (bool false) output stack =
    (prepend-text output _ (render stack), omega arith, omega arith)
expand-Expands (string s) output stack =
    (prepend-text output _ (render stack), omega arith, omega arith)
expand-Expands (number n) output stack = write_number-Expands (write_number n) output stack
expand-Expands (array vs) output stack = (
  rw (render-item_frames 0 vs stack)
      (bracket output (codes "[") (print_items 0 (normalize_items vs)) (render stack)),
  omega (arith, weight-item_frames 0 vs stack),
  omega (arith, nodes-item_frames 0 vs stack),
)
expand-Expands (object fs) output stack = (
  rw (render-entry_frames 0 (sort_entries fs) stack, normalize-sort_entries fs)
      (bracket output (codes "{") (print_fields 0 (sort_entries (normalize_fields fs)))
        (render stack)),
  omega (arith, weight-entry_frames 0 (sort_entries fs) stack, count-sort_entries fs),
  omega (arith, nodes-entry_frames 0 (sort_entries fs) stack, count-sort_entries fs),
)

-- The node limit leaves room for `n` visits.
abbrev pub Room : Option ℕ → ℕ → Type 0
Room none n = Unit
Room (some most) n = n ≤ most

Room-visit :
    (limit : Option ℕ) (nodes n : ℕ)
    → 0 < n
    → Room limit (nodes + n)
    → is_some_and limit (λ most. ltb most (nodes + 1)) ≡ false
Room-visit none nodes n h k = refl
Room-visit (some most) nodes n h k = ground arith

visits : (nodes m n : ℕ) → suc m ≡ n → nodes + n ≡ nodes + 1 + m
visits nodes m n h = omega arith

Result-cases :
    {A : Type 0} (r : Result A) → ((a : A) × (r ≡ ok a)) ⊎ ((e : SigningError) × (r ≡ err e))
Result-cases (ok a) = inl (a, refl)
Result-cases (err e) = inr (e, refl)

handle-render :
    (fuel : ℕ) (limit : Option ℕ) (nodes : ℕ) (output : Text) (stack : List Frame)
    → stack_weight stack < fuel
    → Room limit (nodes + stack_nodes stack)
    → handle fuel limit nodes output stack ≡ some (prepend output (render stack))
unfolding handle render stack_weight stack_nodes
handle-render zero limit nodes output stack f room = absurd (omega arith)
handle-render (suc fuel) limit nodes output [] f room = rw append-nil
handle-render (suc fuel) limit nodes output (emit t ∷ stack) f room =
    handle-render fuel limit nodes (output ++ t) stack (omega arith) room
    ∙ ap some (prepend-text output t (render stack))
handle-render (suc fuel) limit nodes output (visit v ∷ stack) f room =
    let open_slot =
      Room-visit limit nodes (count_nodes v + stack_nodes stack) (omega (arith, count_nodes-pos v))
        room in
    let expands = expand-Expands v output stack in
    elim (Result-cases (expand v output stack)) [
      | inl ((output', stack'), e) ↦
          let (same, lighter, fewer) = subst (Expands v output stack) e expands in
          let room' =
            subst (Room limit)
              (visits nodes (stack_nodes stack') (stack_nodes (visit v ∷ stack)) fewer) room in
          rw (open_slot, handle)
            (rw (e, handle)
              (handle-render fuel limit (nodes + 1) output' stack' (omega arith) room'
                ∙ ap some same))
      | inr (error, e) ↦
          let same = subst (Expands v output stack) e expands in
          rw (open_slot, handle) (rw (e, handle) (ap some (sym same)))
    ]

alone : (value : Value) → stack_weight (visit value ∷ []) < 5 * count_nodes value
unfolding stack_weight
alone value = omega (arith, count_nodes-pos value)

visits_over : (most nodes m n : ℕ) → suc m ≡ n → most < nodes + n → most < nodes + 1 + m
visits_over most nodes m n h k = omega arith

last_frame : (r : Result Text) → prepend [] (do t ← r; rest ← ok []; ok (t ++ rest)) ≡ r
last_frame (ok t) = ap ok (append-nil t)
last_frame (err e) = refl

-- The stack machine computes the text of the normalized value, within any node limit that the value
-- fits, and its fuel is enough.
pub canonicalize_into-print :
    (value : Value) (limit : Option ℕ)
    → Room limit (count_nodes value)
    → canonicalize_into value limit ≡ some (print (normalize value))
unfolding canonicalize_into stack_nodes render
canonicalize_into-print value limit room =
    handle-render (5 * count_nodes value) limit 0 [] (visit value ∷ []) (alone value)
      (subst (Room limit) (omega arith) room)
    ∙ ap some (last_frame (print (normalize value)))

-- Past the limit the machine stops with an error, its own or that of a number before it.
handle-over :
    (fuel most nodes : ℕ) (output : Text) (stack : List Frame)
    → stack_weight stack < fuel
    → nodes ≤ most
    → most < nodes + stack_nodes stack
    → (e : SigningError) × (handle fuel (some most) nodes output stack ≡ some (err e))
unfolding handle stack_weight stack_nodes
handle-over zero most nodes output stack f n over = absurd (omega arith)
handle-over (suc fuel) most nodes output [] f n over = absurd (omega arith)
handle-over (suc fuel) most nodes output (emit t ∷ stack) f n over =
    handle-over fuel most nodes (output ++ t) stack (omega arith) n over
handle-over (suc fuel) most nodes output (visit v ∷ stack) f n over =
    elim (Bool-cases (ltb most (nodes + 1))) [
      | inl full ↦ (output_too_large, rw (full, handle))
      | inr room ↦
          let expands = expand-Expands v output stack in
          elim (Result-cases (expand v output stack)) [
            | inl ((output', stack'), e) ↦
                let (same, lighter, fewer) = subst (Expands v output stack) e expands in
                let (error, stopped) =
                  handle-over fuel most (nodes + 1) output' stack' (omega arith) (ground arith) (
                    visits_over most nodes (stack_nodes stack') (stack_nodes (visit v ∷ stack))
                      fewer over) in
                (error, rw (room, handle) (rw (e, handle) stopped))
            | inr (error, e) ↦ (error, rw (room, handle) (rw (e, handle)))
          ]
    ]

-- A value with more nodes than the limit is always refused.
pub canonicalize_into-over :
    (value : Value) (most : ℕ)
    → most < count_nodes value
    → (e : SigningError) × (canonicalize_into value (some most) ≡ some (err e))
unfolding canonicalize_into
canonicalize_into-over value most over =
    handle-over (5 * count_nodes value) most 0 [] (visit value ∷ []) (alone value) (omega arith)
      (unfold stack_nodes in omega arith)
