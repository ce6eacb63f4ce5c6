-- ===== src/Sensitive/Tests.antt =====
-- Attributes of keetanetwork-anchor/src/sensitive_attributes over a toy cryptography.
use anchor_rs.Prelude.{
  ℕ, Bool, true, false, pos, Option, none, some, List, [], ◌∷◌, ◌++◌, length, ◌≡◌, ◌≢◌, ◌⊎◌, inl,
  inr, refl, ltb, ◌<◌, ◌^◌,
}
use anchor_rs.Prelude.Outcomes.{success, failure}
use anchor_rs.Sensitive.{
  Bytes, Primitives, Draws, SensitiveAttribute, SensitiveAttributeProof, build, decrypt_attribute,
  decrypt_as_string, validate_proof, new, with_value, from_entry, sensitive, plain_text,
  missing_value, unsupported_key_type, unsupported_version, invalid_version,
}
use anchor_rs.Sensitive.Laws.{committed, validate_proof-binding}

abbrev toy_tail : Bytes → Option Bytes
toy_tail [] = none
toy_tail (b ∷ bytes) = some bytes

-- A key pair is a number; the cipher puts its nonce before the message.
abbrev toy : Primitives
toy = record {
  KeyPair = ℕ;
  supports_encryption = λ n. ltb n 5;
  to_public_key = λ n. n ∷ [];
  encrypt = λ n key. some (n ∷ key);
  decrypt = λ n wrapped. toy_tail wrapped;
  Aes256Gcm = Bytes;
  cipher_new = some;
  cipher_encrypt = λ cipher nonce message. some (7 ∷ message);
  cipher_decrypt = λ cipher nonce ciphertext. toy_tail ciphertext;
  sha3_256 = λ message. 33 ∷ message;
  from_utf8 = some;
  base64 = record { encode = λ bytes. 64 ∷ bytes; decode = toy_tail };
  oid_aes_256_gcm = 2 ∷ 46 ∷ [];
  oid_sha3_256 = 2 ∷ 8 ∷ [];
}

abbrev draws : Draws
draws = record { salt = some (1 ∷ 2 ∷ []); symmetric_key = some (9 ∷ []); nonce = 3 ∷ [] }

abbrev attribute : SensitiveAttribute
attribute = record {
  version = pos 0;
  cipher = record { algorithm = 2 ∷ 46 ∷ []; iv_or_nonce = 3 ∷ []; key = 4 ∷ 9 ∷ [] };
  hashed_value = record {
    encrypted_salt = 7 ∷ 1 ∷ 2 ∷ [];
    algorithm = 2 ∷ 8 ∷ [];
    value = 33 ∷ 1 ∷ 2 ∷ 4 ∷ 7 ∷ 50 ∷ 51 ∷ 50 ∷ 51 ∷ [];
  };
  encrypted_value = 7 ∷ 50 ∷ 51 ∷ [];
}

built_from_entry : build toy draws 4 (from_entry (sensitive (50 ∷ 51 ∷ []))) ≡ success attribute
unfolding build from_entry with_value anchor_rs.Sensitive.create_hash_input
built_from_entry = refl

not_built : build toy draws 4 new ≡ failure missing_value
unfolding build
not_built = refl

not_capable : build toy draws 6 (with_value (50 ∷ []) new) ≡ failure unsupported_key_type
unfolding build with_value
not_capable = refl

read_as_string : decrypt_as_string toy 4 attribute ≡ success (50 ∷ 51 ∷ [])
unfolding decrypt_as_string decrypt_attribute anchor_rs.Sensitive.assert_valid_version
    anchor_rs.Sensitive.setup_cipher_for_decryption
read_as_string = refl

abbrev proof : SensitiveAttributeProof
proof = record { value = 64 ∷ 50 ∷ 51 ∷ []; salt = 64 ∷ 1 ∷ 2 ∷ [] }

accepted : validate_proof toy 4 proof attribute ≡ success true
unfolding validate_proof anchor_rs.Prelude.text_eq anchor_rs.Sensitive.create_hash_input
accepted = refl

validate_proof-binding_example :
    (◌≡◌ {A = Bytes} (50 ∷ 51 ∷ []) (50 ∷ 51 ∷ []))
    ⊎ ((committed toy 4 attribute (1 ∷ 2 ∷ []) (50 ∷ 51 ∷ [])
          ≢ committed toy 4 attribute (1 ∷ 2 ∷ []) (50 ∷ 51 ∷ []))
        × (toy.sha3_256 (committed toy 4 attribute (1 ∷ 2 ∷ []) (50 ∷ 51 ∷ []))
            ≡ toy.sha3_256 (committed toy 4 attribute (1 ∷ 2 ∷ []) (50 ∷ 51 ∷ []))))
validate_proof-binding_example =
    validate_proof-binding toy 4 proof proof attribute (50 ∷ 51 ∷ []) (50 ∷ 51 ∷ []) (1 ∷ 2 ∷ [])
      (1 ∷ 2 ∷ []) refl refl refl refl refl accepted accepted

abbrev later : SensitiveAttribute
later = record attribute { version = pos 2 }

later_version : later.version ≢ pos 0
later_version h = cc
