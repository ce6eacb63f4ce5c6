-- ===== src/Signing/Payload/Length.antt =====
-- A decoder of the DER length prefix, beside `encode_length` of
-- keetanetwork-anchor/src/signing/format.rs.
use mathlib.Core.Logic.{inl, inr}
use anchor_rs.Prelude.{
  ℕ, zero, suc, ◌+◌, ◌-◌, ◌*◌, ◌/◌, ◌%◌, ◌^◌, ◌≤◌, ◌<◌, bit_or, ◌≡◌, refl, ap, ◌∙◌, Bool-cases,
  Option, none, some, List, [], ◌∷◌, ◌++◌, length, length-append, ltb, ltb→lt, if◌then◌else◌, arith,
}
use anchor_rs.Signing.Payload.{be_bytes, significant, encode_length, long_form_flag}

-- The number that big-endian bytes stand for.
be_value : ℕ → List ℕ → ℕ
be_value acc [] = acc
be_value acc (b ∷ bs) = be_value (acc * 256 + b) bs

-- `count` bytes as a number, and the bytes after them.
take_value : ℕ → ℕ → List ℕ → Option (ℕ × List ℕ)
take_value zero acc bytes = some (acc, bytes)
take_value (suc count) acc [] = none
take_value (suc count) acc (b ∷ bytes) = take_value count (acc * 256 + b) bytes

-- A DER length: one byte below 128, or a count of bytes and those bytes.
unfoldable pub decode_length : List ℕ → Option (ℕ × List ℕ)
unfolding take_value
decode_length [] = none
decode_length (b ∷ bytes) = if ltb b 128 then some (b, bytes) else take_value (b - 128) 0 bytes

take_value-append :
    (bs rest : List ℕ) (acc : ℕ)
    → take_value (length bs) acc (bs ++ rest) ≡ some (be_value acc bs, rest)
unfolding take_value be_value
take_value-append [] rest acc = refl
take_value-append (b ∷ bs) rest acc = take_value-append bs rest (acc * 256 + b)

be_value-append :
    (bs : List ℕ) (b acc : ℕ) → be_value acc (bs ++ b ∷ []) ≡ be_value acc bs * 256 + b
unfolding be_value
be_value-append [] b acc = refl
be_value-append (c ∷ bs) b acc = be_value-append bs b (acc * 256 + c)

pow-suc : (k n : ℕ) → n < 256 ^ suc k → n / 256 < 256 ^ k
pow-suc k n h = omega (arith, h)

be_value-be_bytes : (k n : ℕ) → n < 256 ^ k → be_value 0 (be_bytes k n) ≡ n
unfolding be_bytes be_value
be_value-be_bytes zero n h = omega arith
be_value-be_bytes (suc k) n h = omega (
  arith,
  be_value-append (be_bytes k (n / 256)) (n % 256) 0,
  be_value-be_bytes k (n / 256) (pow-suc k n h),
)

be_value-significant : (bs : List ℕ) → be_value 0 (significant bs) ≡ be_value 0 bs
unfolding be_value significant
be_value-significant [] = refl
be_value-significant (b ∷ bs) = ground (arith, be_value-significant bs)

length-be_bytes : (k n : ℕ) → length (be_bytes k n) ≡ k
unfolding be_bytes
length-be_bytes zero n = refl
length-be_bytes (suc k) n =
    omega
      (arith, length-append {0} (be_bytes k (n / 256)) (n % 256 ∷ []), length-be_bytes k (n / 256))

length-significant : (bs : List ℕ) → length (significant bs) ≤ length bs
unfolding significant
length-significant [] = omega arith
length-significant (b ∷ bs) = ground (arith, length-significant bs)

flag_table : (n : ℕ) → n ≤ 8 → bit_or long_form_flag (n % 256) ≡ 128 + n
flag_table zero h = refl
flag_table (suc zero) h = refl
flag_table (suc (suc zero)) h = refl
flag_table (suc (suc (suc zero))) h = refl
flag_table (suc (suc (suc (suc zero)))) h = refl
flag_table (suc (suc (suc (suc (suc zero))))) h = refl
flag_table (suc (suc (suc (suc (suc (suc zero)))))) h = refl
flag_table (suc (suc (suc (suc (suc (suc (suc zero))))))) h = refl
flag_table (suc (suc (suc (suc (suc (suc (suc (suc zero)))))))) h = refl
flag_table (suc (suc (suc (suc (suc (suc (suc (suc (suc n))))))))) h = omega (arith, h)

flag-decode :
    (flag : ℕ) (bs rest : List ℕ)
    → flag ≡ 128 + length bs
    → decode_length (flag ∷ bs ++ rest) ≡ some (be_value 0 bs, rest)
unfolding decode_length
flag-decode flag bs rest h =
    let shift : flag - 128 ≡ length bs = omega (arith, h) in
    let read : take_value (flag - 128) 0 (bs ++ rest) ≡ some (be_value 0 bs, rest) =
      ap (λ m. take_value m 0 (bs ++ rest)) shift ∙ take_value-append bs rest 0 in
    ground (arith, h, read)

long-decode :
    (bs rest : List ℕ)
    → length bs ≤ 8
    → decode_length (bit_or long_form_flag (length bs % 256) ∷ bs ++ rest)
      ≡ some (be_value 0 bs, rest)
long-decode bs rest h =
    flag-decode (bit_or long_form_flag (length bs % 256)) bs rest (flag_table (length bs) h)

short-decode : (n : ℕ) (rest : List ℕ) → n < 128 → decode_length (n ∷ rest) ≡ some (n, rest)
unfolding decode_length
short-decode n rest h = ground (arith, h)

length-significant' : (n : ℕ) → length (significant (be_bytes 8 n)) ≤ 8
length-significant' n = omega (arith, length-significant (be_bytes 8 n), length-be_bytes 8 n)

significant_value : (n : ℕ) → n < 256 ^ 8 → be_value 0 (significant (be_bytes 8 n)) ≡ n
significant_value n h = be_value-significant (be_bytes 8 n) ∙ be_value-be_bytes 8 n h

-- The length that is read back from its prefix is the length, whatever follows; the length is a `u64`.
pub decode_length-encode_length :
    (n : ℕ) (rest : List ℕ) → n < 2 ^ 64 → decode_length (encode_length n ++ rest) ≡ some (n, rest)
unfolding encode_length
decode_length-encode_length n rest h =
    let long = long-decode (significant (be_bytes 8 n)) rest (length-significant' n) in
    elim (Bool-cases (ltb n 0x80)) [
      | inl e ↦ rw e (short-decode n rest (ltb→lt n 128 e))
      | inr e ↦ rw e (long ∙ ap (λ m. some (m, rest)) (significant_value n h))
    ]
