-- ===== src/Signing/Canonical/Strings.antt =====
-- A decoder of JSON strings (RFC 8259), beside the escapes of
-- keetanetwork-anchor/src/signing/canonical.rs.
use mathlib.Core.List.{append_assoc}
use anchor_rs.Prelude.{
  ℕ, zero, suc, ◌+◌, ◌-◌, ◌*◌, ◌/◌, ◌%◌, ◌<◌, ◌≡◌, refl, ◌&&◌, Option, none, some, Text, [], ◌∷◌,
  ◌++◌, ltb, leb, ◌==◌, if◌then◌else◌, arith,
}
use anchor_rs.Signing.Canonical.{
  quote, backslash, hex_digit, escape_char, escape_chars, escape_string,
}

-- Inside a string: at a character, after a backslash, or with that many hex digits to come.
pub data Mode : Type 0 where
  plain escaped : Mode
  hex : ℕ → ℕ → Mode

abbrev push : ℕ → Option (Text × Text) → Option (Text × Text)
push c none = none
push c (some (s, rest)) = some (c ∷ s, rest)

hex_value : ℕ → Option ℕ
hex_value c =
    if leb 48 c && leb c 57
    then some (c - 48)
    else if leb 97 c && leb c 102
    then some (c - 87)
    else if leb 65 c && leb c 70
    then some (c - 55)
    else none

-- The text up to the closing quote, and what follows it.
unfoldable pub decode : Mode → Text → Option (Text × Text)
unfolding hex_value
decode mode [] = none
decode plain (c ∷ s) =
    let next = decode plain s in
    let escape = decode escaped s in
    if c == quote
    then some ([], s)
    else if c == backslash
    then escape
    else if ltb c 0x20
    then none
    else push c next
decode escaped (c ∷ s) =
    let next = decode plain s in
    let digits = decode (hex 3 0) s in
    if c == quote
    then push quote next
    else if c == backslash
    then push backslash next
    else if c == b'/'
    then push b'/' next
    else if c == b'b'
    then push 8 next
    else if c == b't'
    then push 9 next
    else if c == b'n'
    then push 10 next
    else if c == b'f'
    then push 12 next
    else if c == b'r'
    then push 13 next
    else if c == b'u'
    then digits
    else none
decode (hex zero n) (c ∷ s) = elim (hex_value c) [
  | none ↦ none
  | some d ↦ push (n * 16 + d) (decode plain s)
]
decode (hex (suc k) n) (c ∷ s) = elim (hex_value c) [
  | none ↦ none
  | some d ↦ decode (hex k (n * 16 + d)) s
]

-- `decode` of a JSON string, from its opening quote.
unfoldable pub decode_string : Text → Option (Text × Text)
unfolding decode
decode_string [] = none
decode_string (c ∷ s) = if c == quote then decode plain s else none

hex_value-hex_digit : (d : ℕ) → d < 16 → hex_value (hex_digit d) ≡ some d
unfolding hex_value
hex_value-hex_digit d h = ground arith

-- The four digits of a control character.
decode-control :
    (c : ℕ) (t : Text)
    → c < 32
    → decode plain (backslash ∷ b'u' ∷ b'0' ∷ b'0' ∷ hex_digit (c / 16) ∷ hex_digit (c % 16) ∷ t)
      ≡ push c (decode plain t)
unfolding decode
decode-control c t h =
    let value : (0 * 16 + c / 16) * 16 + c % 16 ≡ c = omega arith in
    rw (hex_value-hex_digit (c / 16) (omega arith), hex_value-hex_digit (c % 16) (omega arith))
      (rw value)

decode-escape_char :
    (c : ℕ) (t : Text) → decode plain (escape_char c ++ t) ≡ push c (decode plain t)
unfolding decode escape_char
decode-escape_char c t = ground (arith, decode-control c t)

decode-escape_chars :
    (s rest : Text) → decode plain (escape_chars s ++ quote ∷ rest) ≡ some (s, rest)
unfolding escape_chars
decode-escape_chars [] rest = unfold decode in refl
decode-escape_chars (c ∷ s) rest = rw (
  append_assoc (escape_char c) (escape_chars s) (quote ∷ rest),
  decode-escape_char c (escape_chars s ++ quote ∷ rest),
  decode-escape_chars s rest,
)

-- Whatever follows, a JSON decoder reads an escaped string back as the text that was escaped.
pub decode_string-escape_string :
    (s rest : Text) → decode_string (escape_string s ++ rest) ≡ some (s, rest)
unfolding decode_string escape_string
decode_string-escape_string s rest =
    rw (append_assoc (escape_chars s) (quote ∷ []) rest, decode-escape_chars s rest)
