-- ===== src/Container/Toy.antt =====
-- A toy cryptography, and small containers of keetanetwork-anchor/src/encrypted_container over it.
use anchor_rs.Prelude.{
  ℕ, Bool, true, false, Option, none, some, List, [], ◌∷◌, ◌++◌, length, ◌≡◌, refl, sym, subst,
  text_eq, text_eq_refl, ◌==◌, ==_iff, branch, inl, inr, pos, if◌then◌else◌,
}
use anchor_rs.Container.{
  Bytes, ecdsasecp256k1, Crypto, ContainerPackage, SignerInfo, KeyStore, encrypted,
}
use anchor_rs.Container.State.{Seeds, EncryptedContainer, FromPlaintextOptions, from_plaintext}
use anchor_rs.Container.Codec.{get_from}
use anchor_rs.Container.Codec.Laws.{Lawful, get_from-append}

pub record Toy : Type 0 where
  pub number : ℕ
  pub private : Bool

abbrev toy_decrypt : Toy → Bytes → Option Bytes
toy_decrypt a [] = none
toy_decrypt a (n ∷ key) = if a.private then (if n == a.number then some key else none) else none

abbrev toy_account : Bytes → Option Toy
toy_account (n ∷ []) = some (record { number = n; private = false })
toy_account _ = none

abbrev toy_inflate : Bytes → Option Bytes
toy_inflate [] = none
toy_inflate (_ ∷ payload) = some payload

abbrev pub toy : Crypto
toy = record {
  GenericAccount = Toy;
  public_key_with_type = λ a. a.number ∷ [];
  has_private_key = λ a. a.private;
  keypair_type = λ a. ecdsasecp256k1;
  encrypt = λ a key. some (a.number ∷ key);
  decrypt = toy_decrypt;
  sign = λ a digest. some (a.number ∷ digest);
  verify = λ a digest signature. text_eq signature (a.number ∷ digest);
  from_public_key = toy_account;
  aes_encrypt = λ key iv message. if length iv == 16 then some (iv ++ message) else none;
  aes_decrypt = λ key output. get_from 16 output;
  sha3_256 = λ message. 33 ∷ message;
  compress_to_vec_zlib = λ payload. 120 ∷ payload;
  decompress_to_vec_zlib = toy_inflate;
  Blob = ContainerPackage;
  der_encode = some;
  der_decode = some;
  oid_aes_256_cbc = 2 ∷ 16 ∷ [];
  oid_sha3_256 = 2 ∷ 17 ∷ [];
}

singleton_injective : {a b : ℕ} → ◌≡◌ {A = Bytes} (a ∷ []) (b ∷ []) → a ≡ b
singleton_injective h = cc

toy-deciphers :
    (iv message output : Bytes)
    → (if length iv == 16 then some (iv ++ message) else none) ≡ some output
    → (rest : Bytes) × (output ≡ iv ++ rest) × (get_from 16 output ≡ some message)
toy-deciphers iv message output h = elim (branch (length iv == 16) h) [
  | inl (e, f) ↦
      let same : iv ++ message ≡ output = cc in
      (message, sym same, rw (← same) (get_from-append 16 iv message ((==_iff _ 16).0 e)))
  | inr (_, f) ↦ cc
]

toy-unwraps :
    (a b : Toy) (key wrapped : Bytes)
    → some (a.number ∷ key) ≡ some wrapped
    → ◌≡◌ {A = Bytes} (b.number ∷ []) (a.number ∷ [])
    → b.private ≡ true
    → toy_decrypt b wrapped ≡ some key
toy-unwraps a b key wrapped h e p =
    let w : a.number ∷ key ≡ wrapped = cc in
    rw (← w, p, singleton_injective e, (==_iff a.number a.number).1 refl) refl

toy_decrypt-cons :
    (b : Toy) (n : ℕ) (key other : Bytes) → toy_decrypt b (n ∷ key) ≡ some other → key ≡ other
toy_decrypt-cons b n key other h = elim (branch (b.private) h) [
  | inl (_, f) ↦ elim (branch (n == b.number) f) [ inl (_, g) ↦ cc | inr (_, g) ↦ cc ]
  | inr (_, f) ↦ cc
]

toy-unwraps_only :
    (a b : Toy) (key wrapped other : Bytes)
    → some (a.number ∷ key) ≡ some wrapped
    → toy_decrypt b wrapped ≡ some other
    → other ≡ key
toy-unwraps_only a b key wrapped other h d =
    let w : a.number ∷ key ≡ wrapped = cc in
    sym
      (toy_decrypt-cons b a.number key other (subst (λ x. toy_decrypt b x ≡ some other) (sym w) d))

toy_account-key :
    (key : Bytes) (a : Toy) → toy_account key ≡ some a → ◌≡◌ {A = Bytes} (a.number ∷ []) key
toy_account-key [] a h = cc
toy_account-key (n ∷ []) a h = cc
toy_account-key (n ∷ m ∷ key) a h = cc

toy-verifies :
    (a public : Toy) (digest signature : Bytes)
    → some (a.number ∷ digest) ≡ some signature
    → ◌≡◌ {A = Bytes} (public.number ∷ []) (a.number ∷ [])
    → text_eq signature (public.number ∷ digest) ≡ true
toy-verifies a public digest signature h e =
    let w : a.number ∷ digest ≡ signature = cc in
    rw (← w, singleton_injective e, text_eq_refl (a.number ∷ digest)) refl

pub toy-Lawful : Lawful toy
toy-Lawful = record {
  decodes = λ pkg blob h. sym h;
  inflates = λ payload. refl;
  deciphers = λ key iv message output h. toy-deciphers iv message output h;
  unwraps = toy-unwraps;
  unwraps_only = λ a b key wrapped other h e d. toy-unwraps_only a b key wrapped other h d;
  reads_public_key = λ a. (record { number = a.number; private = false }, refl);
  keeps_public_key = toy_account-key;
  verifies = toy-verifies;
}

abbrev pub alice : Toy
alice = record { number = 1; private = true }

abbrev pub bob : Toy
bob = record { number = 2; private = true }

abbrev pub seed : Bytes
seed = 0 ∷ 1 ∷ 2 ∷ 3 ∷ 4 ∷ 5 ∷ 6 ∷ 7 ∷ 8 ∷ 9 ∷ 10 ∷ 11 ∷ 12 ∷ 13 ∷ 14 ∷ 15 ∷ []

abbrev pub seeds : Seeds
seeds = record { key_seed = some (9 ∷ []); iv_seed = some (seed ++ 77 ∷ []) }

abbrev pub signing : FromPlaintextOptions toy
signing = record { locked = none; signer = some alice }

abbrev pub shared : EncryptedContainer toy
shared = from_plaintext toy (7 ∷ 8 ∷ []) (some (alice ∷ bob ∷ [])) signing

abbrev pub signed_by_alice : SignerInfo
signed_by_alice = record {
  version = pos 3;
  sid = 1 ∷ [];
  digest_algorithm = 2 ∷ 17 ∷ [];
  signature_algorithm = 1 ∷ 3 ∷ 132 ∷ 0 ∷ 10 ∷ [];
  signature = 1 ∷ 33 ∷ 120 ∷ 7 ∷ 8 ∷ [];
}

abbrev pub store_of : ℕ → KeyStore
store_of n = record { public_key = n ∷ []; encrypted_symmetric_key = n ∷ 9 ∷ [] }

-- The form of a payload sealed to some accounts.
abbrev pub form : List KeyStore → ContainerPackage
form keys = record {
  version = pos 1;
  container = encrypted (record {
    keys = keys;
    encryption_algorithm = 2 ∷ 16 ∷ [];
    initialization_vector = seed;
    encrypted_value = 120 ∷ 7 ∷ 8 ∷ [];
  });
  signer_info = some signed_by_alice;
}

abbrev pub both : List Toy
both = alice ∷ bob ∷ []

abbrev pub shared_blob : ContainerPackage
shared_blob = form (store_of 1 ∷ store_of 2 ∷ [])

abbrev pub note : EncryptedContainer toy
note = from_plaintext toy (7 ∷ 8 ∷ []) none (record { locked = none; signer = none })
