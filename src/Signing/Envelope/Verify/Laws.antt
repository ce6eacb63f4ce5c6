-- ===== src/Signing/Envelope/Verify/Laws.antt =====
-- Acceptance by `verify_envelope` of keetanetwork-anchor/src/signing/mod.rs.
use anchor_rs.Prelude.{
  ℕ, ◌+◌, ◌≤◌, ℤ, pos, negsuc, pos_part, neg_part, unsigned_abs, sub_ℕ, ◌-ℤ◌, ltb, arith, ◌≡◌, refl,
  ap, sym, subst, ◌∙◌, Bool, true, false, Option, none, some, Text, List, text_eq, text_eq_sound,
  text_eq_refl, if◌then◌else◌, ◌↔◌,
}
use anchor_rs.Prelude.Outcomes.{
  Outcome, success, failure, ◌>>=◌, bind-success, ok_or, ok_or-success, guard-success, guard-fail,
}
use anchor_rs.Signing.Canonical
use anchor_rs.Signing.Canonical.{Result, ok, err, SigningError, account, non_canonical_timestamp}
use anchor_rs.Signing.Payload.{Der, Signable, format_data}
use anchor_rs.Signing.Envelope.{Signed, SignParams, Chrono, Base64, Account, VerifyOptions}
use anchor_rs.Signing.Envelope.Sign
use anchor_rs.Signing.Envelope.Sign.{ensure_canonical_timestamp, verification_data, sign_with}
use anchor_rs.Signing.Envelope.Verify.{
  signature_mismatch, exceeds, canonical_instant, skew_of, within_skew, encoded, verify_envelope,
  clock_skew, malformed_signature, malformed_timestamp,
}

canonical_instant_sound :
    (chrono : Chrono) (timestamp : Text) (instant : chrono.Instant)
    → canonical_instant chrono timestamp ≡ success instant
    → (chrono.parse timestamp ≡ some instant) × (chrono.format_iso8601 instant ≡ timestamp)
unfolding canonical_instant
canonical_instant_sound chrono timestamp instant h =
    let (i, p, h) = bind-success (ok_or malformed_timestamp (chrono.parse timestamp)) h in
    let (same, e) =
      guard-success malformed_timestamp (text_eq (chrono.format_iso8601 i) timestamp) h in
    (
      ok_or-success malformed_timestamp (chrono.parse timestamp) instant (p ∙ ap success e),
      ap chrono.format_iso8601 (sym e) ∙ text_eq_sound (chrono.format_iso8601 i) timestamp same,
    )

canonical_instant_complete :
    (chrono : Chrono) (timestamp : Text) (instant : chrono.Instant)
    → chrono.parse timestamp ≡ some instant
    → chrono.format_iso8601 instant ≡ timestamp
    → canonical_instant chrono timestamp ≡ success instant
unfolding canonical_instant
canonical_instant_complete chrono timestamp instant p c = rw (p, c, text_eq_refl timestamp) refl

-- a - b is at most d.
abbrev pub Ahead : ℕ → (a b : ℤ) → Type 0
Ahead d a b = pos_part a + neg_part b ≤ neg_part a + pos_part b + d

-- Two instants are at most d apart.
abbrev pub Within : ℕ → (a b : ℤ) → Type 0
Within d a b = Ahead d a b × Ahead d b a

-- A negative bound is never kept.
abbrev pub Timely : ℤ → (a b : ℤ) → Type 0
Timely max a b = (d : ℕ) × (max ≡ pos d) × Within d a b

-- The integer m - n is at most d away from 0.
apart_iff : (d m n : ℕ) → (ltb d (unsigned_abs (sub_ℕ m n)) ≡ false) ↔ ((m ≤ n + d) × (n ≤ m + d))
apart_iff d m n = ground arith

exceeds-Timely : (max a b : ℤ) → (exceeds (unsigned_abs (a -ℤ b)) max ≡ false) ↔ Timely max a b
unfolding exceeds
exceeds-Timely (pos d) a b =
    let (to, from) = apart_iff d (pos_part a + neg_part b) (neg_part a + pos_part b) in
    (
      λ h. let (x, y) = to h in (d, refl, (x, omega arith)),
      λ (k, e, w).
          let same : k ≡ d = cc in
          let (x, y) = subst (λ n. Within n a b) same w in from (x, omega arith),
    )
exceeds-Timely (negsuc d) a b = (λ h. cc, λ (k, e, w). cc)

encoded_sound : (r : Result (List ℕ)) (bytes : List ℕ) → encoded r ≡ success bytes → r ≡ ok bytes
encoded_sound (ok b) bytes h = cc
encoded_sound (err e) bytes h = cc

module _ (chrono : Chrono) (der : Der) (base64 : Base64) (signer : Account)
    (parts : List Signable) where
  -- All that makes an envelope acceptable.
  pub record Accepted (signed : Signed) (options : VerifyOptions chrono) : Type 0 where
    pub instant : chrono.Instant
    pub signature : List ℕ
    pub bytes : List ℕ
    pub parses : chrono.parse signed.timestamp ≡ some instant
    pub is_canonical : chrono.format_iso8601 instant ≡ signed.timestamp
    pub timely :
        Timely options.max_skew_ms (chrono.millis instant) (chrono.millis options.reference_time)
    pub decodes : base64.decode signed.signature ≡ some signature
    pub encodes :
        format_data der signer.public_key_with_type signed.nonce signed.timestamp parts ≡ ok bytes
    pub authentic : signer.verify bytes signature ≡ true

  accepted :
      (signed : Signed) (options : VerifyOptions chrono)
      → verify_envelope chrono der base64 signer parts signed options ≡ success tt
      → Accepted signed options
  unfolding verify_envelope canonical_instant within_skew
  accepted signed options h =
      let (instant, p, h) = bind-success (canonical_instant chrono signed.timestamp) h in
      let (_, skew, h) = bind-success (within_skew chrono options instant) h in
      let (signature, d, h) =
        bind-success (ok_or malformed_signature (base64.decode signed.signature)) h in
      let (bytes, e, h) =
        bind-success
          (encoded
            (format_data der signer.public_key_with_type signed.nonce signed.timestamp parts))
          h in
      let (authentic, _) = guard-success signature_mismatch (signer.verify bytes signature) h in
      let (parses, form) = canonical_instant_sound chrono signed.timestamp instant p in
      record {
        instant = instant;
        signature = signature;
        bytes = bytes;
        parses = parses;
        is_canonical = form;
        timely =
            (exceeds-Timely options.max_skew_ms (chrono.millis instant)
                (chrono.millis options.reference_time)).0
              (guard-fail (clock_skew (skew_of chrono options instant) options.max_skew_ms)
                (exceeds (skew_of chrono options instant) options.max_skew_ms) skew).0;
        decodes = ok_or-success malformed_signature (base64.decode signed.signature) signature d;
        encodes =
            encoded_sound
              (format_data der signer.public_key_with_type signed.nonce signed.timestamp parts)
              bytes e;
        authentic = authentic;
      }

  admitted :
      (signed : Signed) (options : VerifyOptions chrono)
      → Accepted signed options
      → verify_envelope chrono der base64 signer parts signed options ≡ success tt
  unfolding verify_envelope within_skew
  admitted signed options a =
      rw
        (
          canonical_instant_complete chrono signed.timestamp a.instant a.parses a.is_canonical,
          (exceeds-Timely options.max_skew_ms (chrono.millis a.instant)
                (chrono.millis options.reference_time)).1
              a.timely,
          a.decodes,
          a.encodes,
          a.authentic,
        )
        refl

  -- An envelope is accepted exactly when its timestamp parses to an instant that is printed as that
  -- timestamp, the instant and the reference time are at most the largest skew apart, which is not
  -- negative, its signature is base64, and the account verifies the decoded bytes over the DER payload of
  -- the same data.
  pub verify_envelope-success_iff :
      (signed : Signed) (options : VerifyOptions chrono)
      → (verify_envelope chrono der base64 signer parts signed options ≡ success tt)
        ↔ Accepted signed options
  verify_envelope-success_iff signed options = (accepted signed options, admitted signed options)

bind-ok :
    {A B : Type 0} {f : A → Result B} {b : B} (m : Result A)
    → Canonical.◌>>=◌ m f ≡ ok b
    → (a : A) × (m ≡ ok a) × (f a ≡ ok b)
bind-ok (ok a) h = (a, refl, h)
bind-ok (err e) h = cc

ok_or-ok :
    {A : Type 0} (e : SigningError) (o : Option A) (a : A) → Sign.ok_or e o ≡ ok a → o ≡ some a
ok_or-ok e none a h = cc
ok_or-ok e (some b) a h = cc

bind-tt : {E : Type 0} (o : Outcome E Unit) → (o >>= λ u. success tt) ≡ o
bind-tt (success tt) = refl
bind-tt (failure e) = refl

ok_injective : {A : Type 0} {a b : A} → ok a ≡ ok b → a ≡ b
ok_injective h = cc

guard-ok :
    {A : Type 0} (e : SigningError) (a : A) {c : A} (b : Bool)
    → (if b then ok a else err e) ≡ ok c
    → b ≡ true
guard-ok e a true h = refl
guard-ok e a false h = cc

module _ (chrono : Chrono) (der : Der) (base64 : Base64) where
  ensure_canonical_timestamp_sound :
      (timestamp : Text) (u : Unit {0})
      → ensure_canonical_timestamp chrono der base64 timestamp ≡ ok u
      → (instant : chrono.Instant) × (chrono.parse timestamp ≡ some instant)
        × (chrono.format_iso8601 instant ≡ timestamp)
  unfolding ensure_canonical_timestamp
  ensure_canonical_timestamp_sound timestamp u h =
      let (instant, p, h) =
        bind-ok (Sign.ok_or non_canonical_timestamp (chrono.parse timestamp)) h in
      (
        instant,
        ok_or-ok non_canonical_timestamp (chrono.parse timestamp) instant p,
        text_eq_sound (chrono.format_iso8601 instant) timestamp (
            guard-ok non_canonical_timestamp tt (text_eq (chrono.format_iso8601 instant) timestamp)
              h),
      )

  verify_envelope-settled :
      (signer : Account) (parts : List Signable) (signed : Signed) (options : VerifyOptions chrono)
      (instant : chrono.Instant) (signature bytes : List ℕ)
      → canonical_instant chrono signed.timestamp ≡ success instant
      → base64.decode signed.signature ≡ some signature
      → format_data der signer.public_key_with_type signed.nonce signed.timestamp parts ≡ ok bytes
      → signer.verify bytes signature ≡ true
      → verify_envelope chrono der base64 signer parts signed options
        ≡ within_skew chrono options instant
  unfolding verify_envelope
  verify_envelope-settled signer parts signed options instant signature bytes c d e v =
      rw (c, d, e, v) (bind-tt (within_skew chrono options instant))

  -- What `sign_with` returned can be verified: by the account that signed, over the same data, the outcome
  -- is the outcome of the skew test of the signed instant alone. Base64 decodes what it encoded, and the
  -- account verifies what it signed.
  pub verify_envelope-sign_with :
      (signer : Account) (parts : List Signable) (params : SignParams)
      (options : VerifyOptions chrono) {signed : Signed}
      → ((bytes : List ℕ) → base64.decode (base64.encode bytes) ≡ some bytes)
      → ((bytes signature : List ℕ)
          → signer.sign bytes ≡ some signature
          → signer.verify bytes signature ≡ true)
      → sign_with chrono der base64 signer parts params ≡ ok signed
      → (instant : chrono.Instant) × (chrono.parse params.timestamp ≡ some instant)
        × (verify_envelope chrono der base64 signer parts signed options
            ≡ within_skew chrono options instant)
  unfolding sign_with verification_data verify_envelope
  verify_envelope-sign_with signer parts params options decode-encode verify-sign h =
      let (u, checked, h) =
        bind-ok (ensure_canonical_timestamp chrono der base64 params.timestamp) h in
      let (bytes, encodes, h) =
        bind-ok (format_data der signer.public_key_with_type params.nonce params.timestamp parts)
          h in
      let (signature, signs, h) = bind-ok (Sign.ok_or account (signer.sign bytes)) h in
      let (instant, parses, form) = ensure_canonical_timestamp_sound params.timestamp u checked in
      let same = ok_injective h in
      let settles =
        verify_envelope-settled signer parts
          (record {
            nonce = params.nonce;
            timestamp = params.timestamp;
            signature = base64.encode signature;
          })
          options instant signature bytes
          (canonical_instant_complete chrono params.timestamp instant parses form)
          (decode-encode signature) encodes
          (verify-sign bytes signature (ok_or-ok account (signer.sign bytes) signature signs)) in
      (
        instant,
        parses,
        subst
            (λ s.
              verify_envelope chrono der base64 signer parts s options
              ≡ within_skew chrono options instant)
            same settles,
      )
