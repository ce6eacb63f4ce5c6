-- ===== src/Signing/Canonical.antt =====
-- keetanetwork-anchor/src/signing/canonical.rs: canonical JSON (RFC 8785) by an explicit stack. The
-- last element of a `Vec` used as a stack is the head of its list.
pub mod Reference
pub mod Machine
pub mod Strings
pub mod Order
use anchor_rs.Prelude.{
  ℕ, suc, zero, ◌+◌, ◌-◌, ◌*◌, ◌/◌, ◌%◌, ◌^◌, Ordering, compare, Bool, true, false, ◌&&◌, Option,
  none, some, is_some_and, Text, List, [], ◌∷◌, ◌++◌, codes, leb, ltb, ◌==◌, if◌then◌else◌, ℤ, pos,
  negsuc, unsigned_abs, to_decimal, utf8_len,
}
use anchor_rs.Json.{
  Value, null, bool, number, string, array, object, Number, Items, nil, cons, Fields, end, field,
}

-- `SigningError`; the reasons of a wrapped failure are not kept.
pub data SigningError : Type 0 where
  non_finite_number integer_out_of_range non_integer_number output_too_large : SigningError
  non_canonical_timestamp encode account : SigningError

pub data Result {ℓ} (A : Type ℓ) : Type ℓ where
  ok : A → Result A
  err : SigningError → Result A

infixl 5 ◌>>=◌
abbrev pub ◌>>=◌ {ℓ κ} : {A : Type ℓ} {B : Type κ} → Result A → (A → Result B) → Result B
ok a >>= f = f a
err e >>= f = err e

abbrev pub max_output_bytes : ℕ
max_output_bytes = 65536

abbrev pub max_nodes : ℕ
max_nodes = 1000

abbrev pub max_safe_integer : ℕ
max_safe_integer = 9_007_199_254_740_991

pub data Frame : Type 0 where
  emit : Text → Frame
  visit : Value → Frame

-- The UTF-16 code units of a text (`str::encode_utf16`).
unfoldable pub encode_utf16 : Text → List ℕ
encode_utf16 [] = []
encode_utf16 (c ∷ s) =
    if ltb c 0x10000
    then c ∷ encode_utf16 s
    else (0xd800 + (c - 0x10000) / 0x400) ∷ (0xdc00 + (c - 0x10000) % 0x400) ∷ encode_utf16 s

-- `Iterator::cmp`: the lexicographic order.
unfoldable pub cmp : List ℕ → List ℕ → Ordering
cmp [] [] = Ordering.eq
cmp [] (b ∷ bs) = Ordering.lt
cmp (a ∷ xs) [] = Ordering.gt
cmp (a ∷ xs) (b ∷ ys) = elim (compare a b) [
  | Ordering.lt ↦ Ordering.lt
  | Ordering.eq ↦ cmp xs ys
  | Ordering.gt ↦ Ordering.gt
]

-- `cmp_utf16`
unfoldable pub cmp_utf16 : Text → Text → Ordering
unfolding encode_utf16 cmp
cmp_utf16 left right = cmp (encode_utf16 left) (encode_utf16 right)

-- `sort_by` is a stable sort; insertion before the first greater key is one.
unfoldable pub insert_sorted : Text → Value → Fields → Fields
insert_sorted k v end = field k v end
insert_sorted k v (field j w fs) = elim (cmp_utf16 k j) [
  | Ordering.gt ↦ field j w (insert_sorted k v fs)
  | Ordering.eq ↦ field k v (field j w fs)
  | Ordering.lt ↦ field k v (field j w fs)
]

unfoldable pub sort_entries : Fields → Fields
unfolding insert_sorted
sort_entries end = end
sort_entries (field k v fs) = insert_sorted k v (sort_entries fs)

abbrev pub quote : ℕ
quote = 34

abbrev pub backslash : ℕ
backslash = 92

abbrev pub hex_digit : ℕ → ℕ
hex_digit d = if ltb d 10 then 48 + d else 87 + d

-- One character of `escape_string`.
unfoldable pub escape_char : ℕ → Text
escape_char c =
    if c == quote
    then backslash ∷ quote ∷ []
    else if c == backslash
    then backslash ∷ backslash ∷ []
    else if c == 8
    then backslash ∷ b'b' ∷ []
    else if c == 9
    then backslash ∷ b't' ∷ []
    else if c == 10
    then backslash ∷ b'n' ∷ []
    else if c == 12
    then backslash ∷ b'f' ∷ []
    else if c == 13
    then backslash ∷ b'r' ∷ []
    else if ltb c 0x20
    then backslash ∷ b'u' ∷ b'0' ∷ b'0' ∷ hex_digit (c / 16) ∷ hex_digit (c % 16) ∷ []
    else c ∷ []

unfoldable pub escape_chars : Text → Text
unfolding escape_char
escape_chars [] = []
escape_chars (c ∷ s) = escape_char c ++ escape_chars s

-- `escape_string`: the text that it appends.
unfoldable pub escape_string : Text → Text
unfolding escape_chars
escape_string value = quote ∷ escape_chars value ++ quote ∷ []

-- `i64::to_string`
unfoldable pub int_to_decimal : ℤ → Text
unfolding to_decimal
int_to_decimal (pos n) = to_decimal n
int_to_decimal (negsuc n) = b'-' ∷ to_decimal (suc n)

not_an_integer : Option Bool → SigningError
not_an_integer (some false) = non_finite_number
not_an_integer (some true) = non_integer_number
not_an_integer none = non_integer_number

unsigned_number : Option ℕ → Option Bool → Result Text
unfolding not_an_integer to_decimal
unsigned_number (some n) finite =
    if ltb max_safe_integer n then err integer_out_of_range else ok (to_decimal n)
unsigned_number none finite = err (not_an_integer finite)

signed_number : Option ℤ → Option ℕ → Option Bool → Result Text
unfolding int_to_decimal unsigned_number
signed_number (some z) u finite =
    if ltb max_safe_integer (unsigned_abs z)
    then err integer_out_of_range
    else ok (int_to_decimal z)
signed_number none u finite = unsigned_number u finite

-- `write_number`: the text that it appends.
unfoldable pub write_number : Number → Result Text
unfolding signed_number
write_number n = signed_number n.as_i64 n.as_u64 n.as_f64_finite

abbrev pub comma_frame : ℕ → List Frame → List Frame
comma_frame index rest = if ltb 0 index then emit (codes ",") ∷ rest else rest

-- The frames of `push_array`, in the order of the source's `frames`.
unfoldable pub item_frames : ℕ → Items → List Frame
item_frames index nil = emit (codes "]") ∷ []
item_frames index (cons item rest) = comma_frame index (visit item ∷ item_frames (index + 1) rest)

-- `push_array`: the frames are pushed in reverse, so the first is on top.
unfoldable pub push_array : Items → List Frame → List Frame
unfolding item_frames
push_array vs stack = emit (codes "[") ∷ item_frames 0 vs ++ stack

-- The frames of `push_object`, from its sorted entries.
unfoldable pub entry_frames : ℕ → Fields → List Frame
entry_frames index end = emit (codes "}") ∷ []
entry_frames index (field key child rest) =
    comma_frame index
      (emit (escape_string key ++ codes ":") ∷ visit child ∷ entry_frames (index + 1) rest)

-- `push_object`
unfoldable pub push_object : Fields → List Frame → List Frame
unfolding entry_frames
push_object map stack = emit (codes "{") ∷ entry_frames 0 (sort_entries map) ++ stack

-- `expand`: the output and the stack that it leaves.
unfoldable pub expand : Value → Text → List Frame → Result (Text × List Frame)
expand null output stack = ok (output ++ codes "null", stack)
expand (bool true) output stack = ok (output ++ codes "true", stack)
expand (bool false) output stack = ok (output ++ codes "false", stack)
expand (number n) output stack = do text ← write_number n; ok (output ++ text, stack)
expand (string text) output stack = ok (output ++ escape_string text, stack)
expand (array vs) output stack = ok (output, push_array vs stack)
expand (object map) output stack = ok (output, push_object map stack)

-- The loop of `canonicalize_into`; `none` means that the fuel ran out.
unfoldable pub handle : ℕ → Option ℕ → ℕ → Text → List Frame → Option (Result Text)
handle zero limit nodes output stack = none
handle (suc fuel) limit nodes output [] = some (ok output)
handle (suc fuel) limit nodes output (emit fragment ∷ stack) =
    handle fuel limit nodes (output ++ fragment) stack
handle (suc fuel) limit nodes output (visit node ∷ stack) =
    elim (is_some_and limit (λ most. ltb most (nodes + 1))) [
      | true ↦ some (err output_too_large)
      | false ↦ elim (expand node output stack) [
        | ok (output', stack') ↦ handle fuel limit (nodes + 1) output' stack'
        | err e ↦ some (err e)
      ]
    ]

-- The nodes of a value: each is visited once.
unfoldable mutual
  pub count_nodes : Value → ℕ
  count_nodes null = 1
  count_nodes (bool b) = 1
  count_nodes (number n) = 1
  count_nodes (string s) = 1
  count_nodes (array vs) = 1 + count_items vs
  count_nodes (object fs) = 1 + count_fields fs

  pub count_items : Items → ℕ
  count_items nil = 0
  count_items (cons v vs) = count_nodes v + count_items vs

  pub count_fields : Fields → ℕ
  count_fields end = 0
  count_fields (field k v fs) = count_nodes v + count_fields fs

-- `canonicalize_into`: a node has at most four fragments, so this fuel covers every frame.
unfoldable pub canonicalize_into : Value → Option ℕ → Option (Result Text)
unfolding handle count_nodes
canonicalize_into value limit = handle (5 * count_nodes value) limit 0 [] (visit value ∷ [])

-- The check of `object_to_signable` on the canonical text.
unfoldable pub limit_output : Text → Result Text
unfolding utf8_len
limit_output canonical =
    if ltb max_output_bytes (utf8_len canonical) then err output_too_large else ok canonical
