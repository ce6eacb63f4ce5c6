-- ===== src/Trust.antt =====
-- keetanetwork-anchor/src/trust: the certificate-chain gate. Certificates (keetanetwork-x509), their
-- validity, their chains and the ordered set that holds the anchors are arguments.
pub mod Laws
mod Tests
use anchor_rs.Prelude.{
  ℕ, Bool, true, false, ◌&&◌, ◌||◌, Option, none, some, unwrap_or, List, [], ◌∷◌, ◌++◌, any,
  is_empty, if◌then◌else◌,
}
use anchor_rs.Prelude.Outcomes.{Outcome, success, failure}

pub record X509 : Type 1 where
  pub Certificate : Type 0
  pub Moment : Type 0
  pub equal : Certificate → Certificate → Bool
  pub is_valid_at : Certificate → Moment → Option Bool
  pub verify_chain : Certificate → List Certificate → List Certificate
  -- `collect` into a `BTreeSet`, iterated in its order.
  pub to_set : List Certificate → List Certificate

pub data CertificateChainStatus : Type 0 where
  trusted no_certs untrusted : CertificateChainStatus

pub data CertificateRequiredKind : Type 0 where
  missing_certificates untrusted_certificates : CertificateRequiredKind

pub data TrustError : Type 0 where
  certificate_required : CertificateRequiredKind → TrustError

-- `Iterator::last`
abbrev pub last : {A : Type 0} → List A → Option A
last [] = none
last (x ∷ []) = some x
last (x ∷ y ∷ xs) = last (y ∷ xs)

module _ (x509 : X509) where
  pub record CertificateRecord : Type 0 where
    pub certificate : x509.Certificate
    pub intermediates : List (x509.Certificate)

  -- `BTreeSet::contains`
  abbrev pub contains : List (x509.Certificate) → x509.Certificate → Bool
  contains certificates c = any (x509.equal c) certificates

  abbrev pub ends_in : List (x509.Certificate) → Option (x509.Certificate) → Bool
  ends_in roots none = false
  ends_in roots (some root) = contains roots root

  -- `record_chains_to_root`
  unfoldable pub record_chains_to_root :
      CertificateRecord → List (x509.Certificate) → x509.Moment → Bool
  record_chains_to_root r roots moment =
      if unwrap_or (x509.is_valid_at r.certificate moment) false
      then if contains roots r.certificate
        then true
        else ends_in roots (last (x509.verify_chain r.certificate (r.intermediates ++ roots)))
      else false

  -- `evaluate_certificate_chain`
  unfoldable pub evaluate_certificate_chain :
      List CertificateRecord → List (x509.Certificate) → x509.Moment → CertificateChainStatus
  evaluate_certificate_chain records trusted_issuers moment =
      if is_empty records
      then no_certs
      else if is_empty trusted_issuers
      then untrusted
      else if any (λ r. record_chains_to_root r (x509.to_set trusted_issuers) moment) records
      then trusted
      else untrusted

  abbrev pub required : CertificateChainStatus → Outcome TrustError Unit
  required trusted = success tt
  required no_certs = failure (certificate_required missing_certificates)
  required untrusted = failure (certificate_required untrusted_certificates)

  -- `assert_certificate_chain`
  unfoldable pub assert_certificate_chain :
      List CertificateRecord → List (x509.Certificate) → x509.Moment → Outcome TrustError Unit
  assert_certificate_chain records trusted_issuers moment =
      required (evaluate_certificate_chain records trusted_issuers moment)
