-- ===== src/Trust/Laws.antt =====
-- Accounts at the certificate-chain gate: keetanetwork-anchor/src/trust.
use anchor_rs.Prelude.{
  ◌≡◌, ◌↔◌, ◌⊎◌, inl, inr, refl, sym, ap, ◌∙◌, Bool, Bool-cases, true, false, Option, none, some,
  unwrap_or, List, [], ◌∷◌, ◌++◌, any, is_empty, Any, any_sound, any_complete, if◌then◌else◌,
}
use anchor_rs.Trust.{
  X509, CertificateRecord, trusted, no_certs, untrusted, last, contains, ends_in,
  record_chains_to_root, evaluate_certificate_chain,
}

if_true : (b : Bool) {c : Bool} → (if b then c else false) ≡ true → (b ≡ true) × (c ≡ true)
if_true true h = (refl, h)
if_true false h = cc

if_else : (b : Bool) {c : Bool} → b ≡ false → (if b then true else c) ≡ true → c ≡ true
if_else true e h = cc
if_else false e h = h

either : (b : Bool) → (if b then true else true) ≡ true
either true = refl
either false = refl

any_nonempty : {A : Type 0} (p : A → Bool) (xs : List A) → any p xs ≡ true → is_empty xs ≡ false
any_nonempty p [] h = cc
any_nonempty p (x ∷ xs) h = refl

decided :
    (a b c : Bool)
    → (if a then no_certs else if b then untrusted else if c then trusted else untrusted) ≡ trusted
    → c ≡ true
decided true b c h = cc
decided false true c h = cc
decided false false true h = refl
decided false false false h = cc

module _ (x509 : X509) (issuers : List (x509.Certificate)) (moment : x509.Moment) where
  -- The set of the anchors has the anchors for its members.
  unfoldable pub HasMembers : Type 0
  HasMembers =
      (c : x509.Certificate) → contains x509 (x509.to_set issuers) c ≡ contains x509 issuers c

  -- The chain that is built for a record: its own intermediates and the anchors are available.
  abbrev pub chain_of : CertificateRecord x509 → List (x509.Certificate)
  chain_of r = x509.verify_chain r.certificate (r.intermediates ++ x509.to_set issuers)

  -- The leaf is valid now, and it or the end of its chain is one of the issuers.
  unfoldable pub ChainsTo : CertificateRecord x509 → Type 0
  ChainsTo r =
      (x509.is_valid_at r.certificate moment ≡ some true)
      × ((contains x509 issuers r.certificate ≡ true)
          ⊎ ((root : x509.Certificate) × (last (chain_of r) ≡ some root)
              × (contains x509 issuers root ≡ true)))

  valid : (o : Option Bool) → unwrap_or o false ≡ true → o ≡ some true
  valid none h = cc
  valid (some b) h = ap some h

  ends_in-cases :
      (roots : List (x509.Certificate)) (o : Option (x509.Certificate))
      → ends_in x509 roots o ≡ true
      → (root : x509.Certificate) × (o ≡ some root) × (contains x509 roots root ≡ true)
  ends_in-cases roots none h = cc
  ends_in-cases roots (some root) h = (root, refl, h)

  chains :
      HasMembers
      → (r : CertificateRecord x509)
      → record_chains_to_root x509 r (x509.to_set issuers) moment ≡ true
      → ChainsTo r
  unfolding HasMembers ChainsTo record_chains_to_root
  chains members r h =
      let (v, h) = if_true (unwrap_or (x509.is_valid_at r.certificate moment) false) h in
      (
        valid (x509.is_valid_at r.certificate moment) v,
        elim (Bool-cases (contains x509 (x509.to_set issuers) r.certificate)) [
          | inl e ↦ inl (sym (members r.certificate) ∙ e)
          | inr e ↦
              let (root, l, c) =
                ends_in-cases (x509.to_set issuers) (last (chain_of r))
                  (if_else (contains x509 (x509.to_set issuers) r.certificate) e h) in
              inr (root, l, sym (members root) ∙ c)
        ],
      )

  chained :
      HasMembers
      → (r : CertificateRecord x509) → ChainsTo r
      → record_chains_to_root x509 r (x509.to_set issuers) moment ≡ true
  unfolding HasMembers ChainsTo record_chains_to_root
  chained members r (v, inl c) = rw (v, members r.certificate, c) refl
  chained members r (v, inr (root, l, c)) =
      rw (v, l, members root, c) (either (contains x509 (x509.to_set issuers) r.certificate))

  trusted-Any :
      HasMembers
      → (records : List (CertificateRecord x509))
      → evaluate_certificate_chain x509 records issuers moment ≡ trusted
      → Any ChainsTo records
  unfolding evaluate_certificate_chain
  trusted-Any members records h =
      any_sound (λ r. record_chains_to_root x509 r (x509.to_set issuers) moment) (chains members)
        records
        (decided (is_empty records) (is_empty issuers)
          (any (λ r. record_chains_to_root x509 r (x509.to_set issuers) moment) records) h)

  some-issuer : (r : CertificateRecord x509) → ChainsTo r → is_empty issuers ≡ false
  unfolding ChainsTo
  some-issuer r (v, inl c) = any_nonempty (x509.equal r.certificate) issuers c
  some-issuer r (v, inr (root, l, c)) = any_nonempty (x509.equal root) issuers c

  Any-issuer :
      (records : List (CertificateRecord x509)) → Any ChainsTo records → is_empty issuers ≡ false
  Any-issuer [] h = absurd h
  Any-issuer (r ∷ records) (inl h) = some-issuer r h
  Any-issuer (r ∷ records) (inr h) = Any-issuer records h

  Any-record :
      (records : List (CertificateRecord x509)) → Any ChainsTo records → is_empty records ≡ false
  Any-record [] h = absurd h
  Any-record (r ∷ records) h = refl

  Any-trusted :
      HasMembers
      → (records : List (CertificateRecord x509)) → Any ChainsTo records
      → evaluate_certificate_chain x509 records issuers moment ≡ trusted
  unfolding evaluate_certificate_chain
  Any-trusted members records h =
      rw
        (
          Any-record records h,
          Any-issuer records h,
          any_complete (λ r. record_chains_to_root x509 r (x509.to_set issuers) moment)
              (chained members) records h,
        )
        refl

  -- An account is trusted exactly when one of its certificates is valid at the moment and is an issuer or
  -- has a chain that ends in an issuer; intermediates only help to build the chain. The ordered set holds
  -- the issuers' members.
  pub evaluate_certificate_chain-trusted_iff :
      HasMembers
      → (records : List (CertificateRecord x509))
      → (evaluate_certificate_chain x509 records issuers moment ≡ trusted) ↔ Any ChainsTo records
  evaluate_certificate_chain-trusted_iff members records =
      (trusted-Any members records, Any-trusted members records)
