-- ===== src/Asset/Blocker/Laws.antt =====
-- Codes of rehydrated blockers: keetanetwork-anchor-client/src/services/asset_movement/error.rs.
use anchor_rs.Prelude.{
  ◌≡◌, inl, inr, refl, sym, ap, Bool-cases, true, Option, none, some, and_then, Text, text_eq,
  text_eq_sound, if◌then◌else◌, List, [], ◌∷◌, any,
}
use anchor_rs.Json.{Value, get, as_str}
use anchor_rs.Asset.Blocker.{
  transport_code, rehydrate, share_needed, kept_verbatim, from_transport, kyc_share_needed_code,
  additional_kyc_needed_code, operation_not_supported_code, user_action_needed_code,
}

-- The codes that are recognized.
abbrev pub known_codes : List Text
known_codes =
    kyc_share_needed_code ∷ additional_kyc_needed_code ∷ operation_not_supported_code
    ∷ user_action_needed_code ∷ []

-- The code itself where it is known.
abbrev pub known : Option Text → Option Text
known none = none
known (some code) = if any (text_eq code) known_codes then some code else none

matched : (s t : Text) → text_eq s t ≡ true → some t ≡ some s
matched s t e = ap some (sym (text_eq_sound s t e))

transport_code-rehydrate :
    (entry : Value) (content : Option Value) (code : Option Text)
    → transport_code (rehydrate entry content code) ≡ known code
unfolding rehydrate transport_code share_needed kept_verbatim
transport_code-rehydrate entry content none = refl
transport_code-rehydrate entry content (some code) =
    elim (Bool-cases (text_eq code kyc_share_needed_code)) [
      | inl e ↦ rw e (matched code kyc_share_needed_code e)
      | inr a ↦ rw a (elim (Bool-cases (text_eq code additional_kyc_needed_code)) [
        | inl e ↦ rw e (matched code additional_kyc_needed_code e)
        | inr b ↦ rw b (elim (Bool-cases (text_eq code operation_not_supported_code)) [
          | inl e ↦ rw e (matched code operation_not_supported_code e)
          | inr c ↦ rw c (elim (Bool-cases (text_eq code user_action_needed_code)) [
            | inl e ↦ rw e (matched code user_action_needed_code e)
            | inr d ↦ rw d refl
          ])
        ])
      ])
    ]

-- The transport code of the blocker that an error envelope rehydrates to is the envelope's code string
-- if that is one of the four known codes, and none in every other case.
pub transport_code-from_transport :
    (entry : Value)
    → transport_code (from_transport entry) ≡ known (and_then (get "code" entry) as_str)
unfolding from_transport
transport_code-from_transport entry =
    transport_code-rehydrate entry (get "data" entry) (and_then (get "code" entry) as_str)
