-- ===== src/Signing/Payload.antt =====
-- keetanetwork-anchor/src/signing/signable.rs, format.rs and `object_to_signable` of canonical.rs. The
-- DER encoder of single values is an argument.
pub mod Length
pub mod Laws
use mathlib.Core.Option
use anchor_rs.Prelude.{
  ℕ, zero, suc, ◌+◌, ◌*◌, ◌/◌, ◌%◌, bit_or, ℤ, Option, none, some, Text, List, [], ◌∷◌, ◌++◌,
  length, ltb, ◌==◌, if◌then◌else◌,
}
use anchor_rs.Json.{Value}
use anchor_rs.Signing.Canonical.{Result, ok, err, ◌>>=◌, max_nodes, canonicalize_into, limit_output}

pub data Signable : Type 0 where
  text : Text → Signable
  integer : ℤ → Signable
  account : List ℕ → Signable

abbrev pub one_text : Result Text → Result (List Signable)
one_text r = do canonical ← r; canonical ← limit_output canonical; ok (text canonical ∷ [])

-- `object_to_signable`; `none` is fuel that ran out.
unfoldable pub object_to_signable : Value → Option (Result (List Signable))
object_to_signable value = Option.map one_text (canonicalize_into value (some max_nodes))

-- `rasn::der::encode` on the three types that are encoded.
pub record Der : Type 0 where
  pub utf8 : Text → Result (List ℕ)
  pub octets : List ℕ → Result (List ℕ)
  pub integer : ℤ → Result (List ℕ)

abbrev pub sequence_tag : ℕ
sequence_tag = 0x30

abbrev pub long_form_flag : ℕ
long_form_flag = 0x80

-- The low bytes of a number, the highest first.
unfoldable pub be_bytes : ℕ → ℕ → List ℕ
be_bytes zero n = []
be_bytes (suc k) n = be_bytes k (n / 256) ++ n % 256 ∷ []

-- The bytes after the leading zeros.
unfoldable pub significant : List ℕ → List ℕ
significant [] = []
significant (b ∷ bs) = let rest = significant bs in if b == 0 then rest else b ∷ bs

-- `encode_length`: the bytes that it appends, for a 64-bit `usize`.
unfoldable pub encode_length : ℕ → List ℕ
encode_length n =
    if ltb n 0x80
    then n ∷ []
    else let bytes = significant (be_bytes 8 n) in
      bit_or long_form_flag (length bytes % 256) ∷ bytes

unfoldable pub concat : List (List ℕ) → List ℕ
concat [] = []
concat (element ∷ elements) = element ++ concat elements

unfoldable pub total_length : List (List ℕ) → ℕ
total_length [] = 0
total_length (element ∷ elements) = length element + total_length elements

-- `wrap_sequence`
unfoldable pub wrap_sequence : List (List ℕ) → List ℕ
unfolding encode_length concat total_length
wrap_sequence elements = sequence_tag ∷ encode_length (total_length elements) ++ concat elements

module _ (der : Der) where
  -- `encode_part`
  unfoldable pub encode_part : Signable → Result (List ℕ)
  encode_part (text t) = der.utf8 t
  encode_part (integer value) = der.integer value
  encode_part (account bytes) = der.octets bytes

  unfoldable pub encode_parts : List Signable → Result (List (List ℕ))
  unfolding encode_part
  encode_parts [] = ok []
  encode_parts (part ∷ parts) = do
    element ← encode_part part
    elements ← encode_parts parts
    ok (element ∷ elements)

  -- `format_data`
  unfoldable pub format_data : List ℕ → Text → Text → List Signable → Result (List ℕ)
  unfolding encode_parts wrap_sequence
  format_data signer nonce timestamp parts = do
    nonce ← der.utf8 nonce
    timestamp ← der.utf8 timestamp
    signer ← der.octets signer
    elements ← encode_parts parts
    ok (wrap_sequence (nonce ∷ timestamp ∷ signer ∷ elements))
