-- ===== src/Resolver/Entries/Laws.antt =====
-- Provider entries that name an account: keetanetwork-anchor-client/src/resolver/mod.rs.
use anchor_rs.Prelude.{
  ◌≡◌, ◌↔◌, refl, sym, ap, ◌∙◌, true, pos, Option, none, some, and_then, Text, codes, List,
}
use anchor_rs.Prelude.Outcomes.{Outcome, success, failure, ok_or, ok_or-success, bind-success}
use anchor_rs.Json.{
  Value, Fields, null, bool, number, string, array, object, field, end, get, as_str,
}
use anchor_rs.Signing.Canonical.{Result, ok, err}
use anchor_rs.Signing.Payload.{Der, Signable, object_to_signable}
use anchor_rs.Signing.Envelope.{Signed, Chrono, Base64, Account, VerifyOptions, unbounded}
use anchor_rs.Signing.Envelope.Verify.{VerifyError, verify_envelope}
use anchor_rs.Signing.Envelope.Verify.Laws.{Accepted, verify_envelope-success_iff}
use anchor_rs.Signing.Request.{verify_body, as_request, malformed_account}
use anchor_rs.Resolver.Entries.{
  signed_fields, is_success, body_ok, signable_ok, operations_ok, verify_entry, credentials_ok,
  entry_signature_ok,
}

-- The legal terms that are signed: none for a missing or null field.
abbrev pub legal_terms : Option Value → Fields
legal_terms none = end
legal_terms (some null) = end
legal_terms (some legal) = field (codes "legal") legal end

-- What a provider signs.
abbrev pub statement : Text → Value → Option Value → Value
statement account operations legal = object (
    field (codes "namespace") (string (codes "keetanet/anchor/service-metadata/v1")) (
      field (codes "account") (string account)
        (field (codes "operations") operations (legal_terms legal))))

-- The widest skew of 64 bits, about the epoch.
abbrev pub any_age : (chrono : Chrono) → VerifyOptions chrono
any_age chrono = record { max_skew_ms = pos 9223372036854775807; reference_time = chrono.epoch }

signed_fields-statement :
    (account : Text) (operations : Value) (legal : Option Value)
    → signed_fields account operations legal ≡ statement account operations legal
unfolding signed_fields
signed_fields-statement account operations none = refl
signed_fields-statement account operations (some null) = refl
signed_fields-statement account operations (some (bool b)) = refl
signed_fields-statement account operations (some (number n)) = refl
signed_fields-statement account operations (some (string t)) = refl
signed_fields-statement account operations (some (array vs)) = refl
signed_fields-statement account operations (some (object fs)) = refl

is_success-success :
    {E A : Type 0} (o : Outcome E A) → is_success o ≡ true → (a : A) × (o ≡ success a)
is_success-success (success a) h = (a, refl)
is_success-success (failure e) h = cc

as_request-success :
    {A : Type 0} (o : Outcome VerifyError A) (a : A) → as_request o ≡ success a → o ≡ success a
as_request-success (success b) a h = cc
as_request-success (failure e) a h = cc

module _ (chrono : Chrono) (der : Der) (base64 : Base64) (from_str : Text → Option Account)
    (decode_signed : Value → Option Signed) where
  -- The account's signature verifies over the namespace, the account, the operations and the legal terms,
  -- whatever its age.
  pub record Verified (account : Text) (entry : Value) : Type 0 where
    pub signer : Account
    pub signed : Value
    pub operations : Value
    pub envelope : Signed
    pub parts : List Signable
    pub resolves : from_str account ≡ some signer
    pub has_signed : get "signed" entry ≡ some signed
    pub has_operations : get "operations" entry ≡ some operations
    pub signs :
        object_to_signable (statement account operations (get "legal" entry)) ≡ some (ok parts)
    pub decodes : decode_signed signed ≡ some envelope
    pub verified : Accepted chrono der base64 signer parts envelope (any_age chrono)

  credentials-some :
      (entry : Value) (account : Text) (signed : Option Value)
      → credentials_ok chrono der base64 from_str decode_signed entry (some account) signed ≡ true
      → (s : Value) × (signed ≡ some s)
        × (verify_entry chrono der base64 from_str decode_signed account entry s ≡ true)
  credentials-some entry account none h = cc
  credentials-some entry account (some s) h = (s, refl, h)

  operations-some :
      (account : Text) (entry signed : Value) (operations : Option Value)
      → operations_ok chrono der base64 from_str decode_signed account entry signed operations
        ≡ true
      → (o : Value) × (operations ≡ some o)
        × (signable_ok chrono der base64 from_str decode_signed account signed
              (object_to_signable (signed_fields account o (get "legal" entry)))
            ≡ true)
  operations-some account entry signed none h = cc
  operations-some account entry signed (some o) h = (o, refl, h)

  signable-some :
      (account : Text) (signed : Value) (r : Option (Result (List Signable)))
      → signable_ok chrono der base64 from_str decode_signed account signed r ≡ true
      → (parts : List Signable) × (r ≡ some (ok parts))
        × (body_ok chrono der base64 from_str decode_signed account (decode_signed signed) parts
            ≡ true)
  signable-some account signed none h = cc
  signable-some account signed (some (err e)) h = cc
  signable-some account signed (some (ok parts)) h = (parts, refl, h)

  body-some :
      (account : Text) (envelope : Option Signed) (parts : List Signable)
      → body_ok chrono der base64 from_str decode_signed account envelope parts ≡ true
      → (s : Signed) × (envelope ≡ some s)
        × (is_success (verify_body chrono der base64 from_str account s parts (unbounded chrono))
            ≡ true)
  body-some account none parts h = cc
  body-some account (some s) parts h = (s, refl, h)

  verify_body-success :
      (account : Text) (envelope : Signed) (parts : List Signable)
      → is_success
          (verify_body chrono der base64 from_str account envelope parts (unbounded chrono))
        ≡ true
      → (signer : Account) × (from_str account ≡ some signer)
        × (verify_envelope chrono der base64 signer parts envelope (unbounded chrono) ≡ success tt)
  unfolding verify_body
  verify_body-success account envelope parts h =
      let (_, h) =
        is_success-success
          (verify_body chrono der base64 from_str account envelope parts (unbounded chrono)) h in
      let (signer, n, h) = bind-success (ok_or malformed_account (from_str account)) h in
      let (u, v, _) =
        bind-success
          (as_request (verify_envelope chrono der base64 signer parts envelope (unbounded chrono)))
          h in
      (
        signer,
        ok_or-success malformed_account (from_str account) signer n,
        as_request-success
            (verify_envelope chrono der base64 signer parts envelope (unbounded chrono)) u v,
      )

  entry_signature_ok-Verified :
      (entry : Value) (account : Text)
      → and_then (get "account" entry) as_str ≡ some account
      → entry_signature_ok chrono der base64 from_str decode_signed entry ≡ true
      → Verified account entry
  unfolding entry_signature_ok verify_entry
  entry_signature_ok-Verified entry account named h =
      let h =
        sym (
          ap
            (λ o.
              credentials_ok chrono der base64 from_str decode_signed entry o (get "signed" entry))
            named)
        ∙ h in
      let (signed, s, h) = credentials-some entry account (get "signed" entry) h in
      let (operations, o, h) = operations-some account entry signed (get "operations" entry) h in
      let (parts, p, h) =
        signable-some account signed
          (object_to_signable (signed_fields account operations (get "legal" entry))) h in
      let (envelope, d, h) = body-some account (decode_signed signed) parts h in
      let (signer, n, v) = verify_body-success account envelope parts h in
      record {
        signer = signer;
        signed = signed;
        operations = operations;
        envelope = envelope;
        parts = parts;
        resolves = n;
        has_signed = s;
        has_operations = o;
        signs =
            ap object_to_signable
              (sym (signed_fields-statement account operations (get "legal" entry)))
            ∙ p;
        decodes = d;
        verified =
            (verify_envelope-success_iff chrono der base64 signer parts envelope (any_age chrono)).0
              v;
      }

  Verified-entry_signature_ok :
      (entry : Value) (account : Text)
      → and_then (get "account" entry) as_str ≡ some account
      → Verified account entry
      → entry_signature_ok chrono der base64 from_str decode_signed entry ≡ true
  unfolding entry_signature_ok verify_entry verify_body
  Verified-entry_signature_ok entry account named v =
      rw
        (
          named,
          v.has_signed,
          v.has_operations,
          signed_fields-statement account v.operations (get "legal" entry),
          v.signs,
          v.decodes,
          v.resolves,
          (verify_envelope-success_iff chrono der base64 v.signer v.parts v.envelope
                (any_age chrono)).1
              v.verified,
        )
        refl

  -- An entry that names an account passes exactly when its `signed` decodes to an envelope that the named
  -- account signed, under the rules of `verify_envelope` within 2^63 - 1 milliseconds of the epoch, over
  -- the canonical text of the object of the metadata namespace, the account, the entry's operations and
  -- its legal terms, which are left out when missing or null.
  pub entry_signature_ok-Verified_iff :
      (entry : Value) (account : Text)
      → and_then (get "account" entry) as_str ≡ some account
      → (entry_signature_ok chrono der base64 from_str decode_signed entry ≡ true)
        ↔ Verified account entry
  entry_signature_ok-Verified_iff entry account named = (
    entry_signature_ok-Verified entry account named,
    Verified-entry_signature_ok entry account named,
  )
