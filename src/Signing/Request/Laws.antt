-- ===== src/Signing/Request/Laws.antt =====
-- Signed URLs, attached and read back: keetanetwork-anchor/src/signing/request.rs.
use anchor_rs.Prelude.{
  ◌≡◌, ◌≢◌, ◌↔◌, inl, inr, refl, ap, sym, ◌∙◌, Bool, Option-cases, true, false, ◌||◌, none, some,
  Text, List, [], ◌∷◌, ◌++◌, text_eq, arith,
}
use anchor_rs.Prelude.Outcomes.{Outcome, success, failure}
use anchor_rs.Signing.Envelope.{Signed}
use anchor_rs.Signing.Request.{
  RequestError, duplicate_parameter, UrlOps, param_nonce, param_timestamp, param_signature,
  param_account, signed_params, has_key, first_present, Fields, no_fields, assign, collect,
  complete, add_signature_to_url, parse_signature_from_url,
}

collect-append :
    (ps qs : List (Text × Text)) (fields : Fields)
    → collect (ps ++ qs) fields ≡ collect qs (collect ps fields)
unfolding collect
collect-append [] qs fields = refl
collect-append ((key, value) ∷ ps) qs fields = collect-append ps qs (assign key value fields)

has_key-append :
    (name : Text) (ps qs : List (Text × Text))
    → has_key name (ps ++ qs) ≡ (has_key name ps || has_key name qs)
unfolding has_key
has_key-append name [] qs = refl
has_key-append name ((key, value) ∷ ps) qs = ground (arith, has_key-append name ps qs)

-- The pairs that `add_signature_to_url` appends.
credentials : Text → Signed → List (Text × Text)
credentials account signed =
    (param_nonce, signed.nonce)
    ∷ (param_timestamp, signed.timestamp)
    ∷ (param_signature, signed.signature)
    ∷ (param_account, account)
    ∷ []

collect-credentials :
    (account : Text) (signed : Signed) (fields : Fields)
    → collect (credentials account signed) fields ≡ record {
      nonce = some signed.nonce;
      timestamp = some signed.timestamp;
      signature = some signed.signature;
      account = some account;
    }
unfolding collect credentials assign text_eq
collect-credentials account signed fields = refl

four :
    {A : Type 0} (ps : List A) (a b c d : A)
    → (((ps ++ a ∷ []) ++ b ∷ []) ++ c ∷ []) ++ d ∷ [] ≡ ps ++ a ∷ b ∷ c ∷ d ∷ []
four [] a b c d = refl
four (p ∷ ps) a b c d = ap (λ xs. p ∷ xs) (four ps a b c d)

success_injective :
    {A : Type 0} {a b : A} → ◌≡◌ {A = Outcome RequestError A} (success a) (success b) → a ≡ b
success_injective h = cc

failure-success :
    {A : Type 0} {e : RequestError} {a : A}
    → ◌≢◌ {A = Outcome RequestError A} (failure e) (success a)
failure-success h = cc

absent :
    (pairs : List (Text × Text))
    → first_present signed_params pairs ≡ none
    → (has_key param_nonce pairs ≡ false)
      × (has_key param_timestamp pairs ≡ false)
      × (has_key param_signature pairs ≡ false)
unfolding first_present
absent pairs h = ground arith

fresh :
    (pairs : List (Text × Text))
    → has_key param_nonce pairs ≡ false
    → has_key param_timestamp pairs ≡ false
    → has_key param_signature pairs ≡ false
    → first_present signed_params pairs ≡ none
unfolding first_present
fresh pairs n t s = rw (n, t, s) refl

first_present-nonce :
    (pairs : List (Text × Text))
    → has_key param_nonce pairs ≡ true
    → first_present signed_params pairs ≡ some param_nonce
unfolding first_present
first_present-nonce pairs n = rw n refl

or_true : (b : Bool) → (b || true) ≡ true
or_true true = refl
or_true false = refl

has_key-credentials :
    (pairs : List (Text × Text)) (account : Text) (signed : Signed)
    → has_key param_nonce (pairs ++ credentials account signed) ≡ true
unfolding has_key credentials text_eq
has_key-credentials pairs account signed =
    has_key-append param_nonce pairs (credentials account signed)
    ∙ or_true (has_key param_nonce pairs)

module _ (ops : UrlOps) where
  -- Appending a pair adds it at the end of the query.
  unfoldable pub Appends : Type 0
  Appends =
      (key value : Text) (url : ops.Url)
      → ops.query_pairs (ops.append_pair key value url) ≡ ops.query_pairs url ++ (key, value) ∷ []

  attached : ops.Url → Text → Signed → ops.Url
  attached base account signed = ops.append_pair param_account account (
      ops.append_pair param_signature signed.signature (
        ops.append_pair param_timestamp signed.timestamp
          (ops.append_pair param_nonce signed.nonce base)))

  add-fresh :
      (base : ops.Url) (account : Text) (signed : Signed)
      → first_present signed_params (ops.query_pairs base) ≡ none
      → add_signature_to_url ops base account signed ≡ success (attached base account signed)
  unfolding add_signature_to_url attached
  add-fresh base account signed e = rw e refl

  add-present :
      (base : ops.Url) (account name : Text) (signed : Signed)
      → first_present signed_params (ops.query_pairs base) ≡ some name
      → add_signature_to_url ops base account signed ≡ failure (duplicate_parameter name)
  unfolding add_signature_to_url
  add-present base account name signed e = rw e refl

  add-cases :
      (base url : ops.Url) (account : Text) (signed : Signed)
      → add_signature_to_url ops base account signed ≡ success url
      → (first_present signed_params (ops.query_pairs base) ≡ none)
        × (attached base account signed ≡ url)
  add-cases base url account signed h =
      elim (Option-cases (first_present signed_params (ops.query_pairs base))) [
        | inl e ↦ (e, success_injective (sym (add-fresh base account signed e) ∙ h))
        | inr (name, e) ↦
            absurd (failure-success (sym (add-present base account name signed e) ∙ h))
      ]

  query_pairs-attached :
      Appends
      → (base : ops.Url) (account : Text) (signed : Signed)
      → ops.query_pairs (attached base account signed)
        ≡ ops.query_pairs base ++ credentials account signed
  unfolding Appends attached credentials
  query_pairs-attached appends base account signed =
      rw
        (
          appends param_account account (
              ops.append_pair param_signature signed.signature (
                ops.append_pair param_timestamp signed.timestamp
                  (ops.append_pair param_nonce signed.nonce base))),
          appends param_signature signed.signature (
              ops.append_pair param_timestamp signed.timestamp
                (ops.append_pair param_nonce signed.nonce base)),
          appends param_timestamp signed.timestamp (ops.append_pair param_nonce signed.nonce base),
          appends param_nonce signed.nonce base,
        )
        (four (ops.query_pairs base) (param_nonce, signed.nonce) (param_timestamp, signed.timestamp)
          (param_signature, signed.signature) (param_account, account))

  query_pairs-added :
      Appends
      → (base url : ops.Url) (account : Text) (signed : Signed)
      → add_signature_to_url ops base account signed ≡ success url
      → ops.query_pairs url ≡ ops.query_pairs base ++ credentials account signed
  query_pairs-added appends base url account signed h =
      let (_, e) = add-cases base url account signed h in
      sym (ap ops.query_pairs e) ∙ query_pairs-attached appends base account signed

  -- The account and the envelope that are read from a signed URL are those that were attached to it.
  pub parse_signature_from_url-add_signature_to_url :
      Appends
      → (base url : ops.Url) (account : Text) (signed : Signed)
      → add_signature_to_url ops base account signed ≡ success url
      → parse_signature_from_url ops url ≡ success (account, signed)
  unfolding parse_signature_from_url complete
  parse_signature_from_url-add_signature_to_url appends base url account signed h =
      let pairs = query_pairs-added appends base url account signed h in
      rw
        (
          pairs,
          collect-append (ops.query_pairs base) (credentials account signed) no_fields,
          collect-credentials account signed (collect (ops.query_pairs base) no_fields),
        )
        refl

  -- A signed URL cannot be signed again: the nonce is already there.
  pub add_signature_to_url-twice :
      Appends
      → (base url : ops.Url) (account account' : Text) (signed signed' : Signed)
      → add_signature_to_url ops base account signed ≡ success url
      → add_signature_to_url ops url account' signed' ≡ failure (duplicate_parameter param_nonce)
  add_signature_to_url-twice appends base url account account' signed signed' h =
      add-present url account' param_nonce signed' (
        first_present-nonce (ops.query_pairs url) (
          rw (query_pairs-added appends base url account signed h)
            (has_key-credentials (ops.query_pairs base) account signed)))

  -- A URL can be signed exactly when its query has none of the three `signed.*` keys.
  pub add_signature_to_url-success_iff :
      (base : ops.Url) (account : Text) (signed : Signed)
      → ((url : ops.Url) × (add_signature_to_url ops base account signed ≡ success url))
        ↔ (has_key param_nonce (ops.query_pairs base) ≡ false)
          × (has_key param_timestamp (ops.query_pairs base) ≡ false)
          × (has_key param_signature (ops.query_pairs base) ≡ false)
  add_signature_to_url-success_iff base account signed = (
    λ (url, h). let (e, _) = add-cases base url account signed h in absent (ops.query_pairs base) e,
    λ (n, t, s). (
      attached base account signed,
      add-fresh base account signed (fresh (ops.query_pairs base) n t s),
    ),
  )
