-- ===== src/Signing/Toy.antt =====
-- A toy clock, account and URL for keetanetwork-anchor/src/signing.
use anchor_rs.Prelude.{
  ℕ, true, ◌≡◌, pos, some, some_injective, text_eq, text_eq_refl, Text, codes, List, [], ◌∷◌, ◌++◌,
}
use anchor_rs.Signing.Canonical.{ok}
use anchor_rs.Signing.Payload.{Der, Signable, text}
use anchor_rs.Signing.Envelope.{
  Signed, SignParams, Chrono, Base64, Account, VerifyOptions, unbounded,
}
use anchor_rs.Signing.Request.{UrlOps}

-- A clock with one instant, the identity for base64 and DER, and an account that signs by copying.
abbrev pub noon : Chrono
noon = record {
  Instant = ℕ;
  epoch = 0;
  parse = λ t. some 5;
  millis = λ n. pos n;
  format_iso8601 = λ n. codes "noon";
}

abbrev pub plain : Base64
plain = record { encode = λ bytes. bytes; decode = λ t. some t }

abbrev pub bare : Der
bare = record { utf8 = λ t. ok t; octets = λ bytes. ok bytes; integer = λ n. ok [] }

abbrev pub copier : Account
copier = record { public_key_with_type = 9 ∷ []; sign = λ bytes. some bytes; verify = text_eq }

abbrev pub params : SignParams
params = record { nonce = codes "n"; timestamp = codes "noon" }

abbrev pub parts : List Signable
parts = text (codes "x") ∷ []

abbrev pub envelope : Signed
envelope = record {
  nonce = codes "n";
  timestamp = codes "noon";
  signature = 48 ∷ 7 ∷ codes "n" ++ codes "noon" ++ 9 ∷ codes "x";
}

abbrev pub options : VerifyOptions noon
options = unbounded noon

pub verifies :
    (bytes signature : List ℕ) → some bytes ≡ some signature → text_eq bytes signature ≡ true
verifies bytes signature e = rw (some_injective e) (text_eq_refl signature)

-- A URL is its query.
abbrev pub queries : UrlOps
queries = record {
  Url = List (Text × Text);
  query_pairs = λ url. url;
  append_pair = λ key value url. url ++ (key, value) ∷ [];
}

abbrev pub base : List (Text × Text)
base = (codes "page", codes "2") ∷ []

abbrev pub signed_url : List (Text × Text)
signed_url =
    (codes "page", codes "2")
    ∷ (codes "signed.nonce", codes "n")
    ∷ (codes "signed.timestamp", codes "noon")
    ∷ (codes "signed.signature", envelope.signature)
    ∷ (codes "account", codes "me")
    ∷ []
