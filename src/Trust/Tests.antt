-- ===== src/Trust/Tests.antt =====
-- The certificate gate at a concrete chain.
use anchor_rs.Prelude.{ℕ, ◌≡◌, ◌↔◌, refl, true, some, [], ◌∷◌, Any, ◌==◌}
use anchor_rs.Trust.{X509, CertificateRecord, trusted, evaluate_certificate_chain}
use anchor_rs.Trust.Laws.{HasMembers, ChainsTo, evaluate_certificate_chain-trusted_iff}

-- Certificates are numbers, always valid, and a chain is the leaf and what is available.
abbrev numbers : X509
numbers = record {
  Certificate = ℕ;
  Moment = ℕ;
  equal = λ a b. a == b;
  is_valid_at = λ c m. some true;
  verify_chain = λ c available. c ∷ available;
  to_set = λ cs. cs;
}

abbrev record_one : CertificateRecord numbers
record_one = record { certificate = 1; intermediates = 2 ∷ [] }

evaluate_certificate_chain-trusted_iff_example :
    (evaluate_certificate_chain numbers (record_one ∷ []) (3 ∷ []) 0 ≡ trusted)
    ↔ Any (ChainsTo numbers (3 ∷ []) 0) (record_one ∷ [])
unfolding HasMembers
evaluate_certificate_chain-trusted_iff_example =
    evaluate_certificate_chain-trusted_iff numbers (3 ∷ []) 0 (λ c. refl) (record_one ∷ [])
