-- ===== src/Service/Envelope/Pending.antt =====
-- When a response is pending, and for how long: what `retry_delay` of
-- keetanetwork-anchor-client/src/service/envelope.rs finds, stated without it.
use anchor_rs.Prelude.{
  ℕ, ◌*◌, ◌^◌, ◌<◌, ◌≤◌, ◌==◌, ◌≡◌, ◌↔◌, ◌⊎◌, inl, inr, refl, sym, ap, subst, ◌∙◌, ◌||◌, Option,
  none, some, and_then, unwrap_or, List, if◌then◌else◌, arith,
}
use anchor_rs.Http.RetryAfter.{RetryAfter, seconds, http_date, to_millis}
use anchor_rs.Http.Response.{HttpResponse}
use anchor_rs.Service.Envelope.{Envelope, default_envelope, header_delay_ms, or_delay, retry_delay}

-- The hint of a body: an envelope that is read from it and has a `retryAfter`.
abbrev pub Hinted : Option Envelope → ℕ → Type 0
Hinted o ms = (e : Envelope) × (o ≡ some e) × (e.retry_after ≡ some ms)

abbrev pub Unhinted : Option Envelope → Type 0
Unhinted o = (e : Envelope) → o ≡ some e → e.retry_after ≡ none

-- The hint of a header: a number of seconds whose milliseconds have 32 bits.
abbrev pub HeaderHint : Option RetryAfter → ℕ → Type 0
HeaderHint o ms = (n : ℕ) × (o ≡ some (seconds n)) × (ms ≡ n * 1000) × (ms < 2 ^ 32)

abbrev pub NoHeaderHint : Option RetryAfter → Type 0
NoHeaderHint o = (n : ℕ) → o ≡ some (seconds n) → 2 ^ 32 ≤ n * 1000

-- The delay a pending response asks for: the body's hint, else the header's, else half a second for
-- a resource that is not there yet.
pub data Pending (envelope_from : List ℕ → Option Envelope) (response : HttpResponse)
    : ℕ → Type 0 where
  by_body : {ms : ℕ} → Hinted (envelope_from response.body) ms → Pending envelope_from response ms
  by_header :
      {ms : ℕ}
      → Unhinted (envelope_from response.body)
      → HeaderHint response.retry_after ms
      → Pending envelope_from response ms
  by_status :
      Unhinted (envelope_from response.body)
      → NoHeaderHint response.retry_after
      → (response.status ≡ 404) ⊎ (response.status ≡ 202)
      → Pending envelope_from response 500

Hinted-some :
    (o : Option Envelope) (ms : ℕ)
    → ((unwrap_or o default_envelope).retry_after ≡ some ms) ↔ Hinted o ms
Hinted-some none ms = (λ h. cc, λ (e, same, h). cc)
Hinted-some (some e) ms =
    (λ h. (e, refl, h), λ (e', same, h). let s : e' ≡ e = cc in ap (λ e. e.retry_after) (sym s) ∙ h)

Unhinted-none :
    (o : Option Envelope) → ((unwrap_or o default_envelope).retry_after ≡ none) ↔ Unhinted o
Unhinted-none none = (λ h. λ e same. cc, λ h. refl)
Unhinted-none (some e) =
    (λ h. λ e' same. let s : e' ≡ e = cc in ap (λ e. e.retry_after) s ∙ h, λ h. h e refl)

seconds_delay_some :
    (n ms : ℕ) → (header_delay_ms (seconds n) ≡ some ms) ↔ ((ms ≡ n * 1000) × (ms < 2 ^ 32))
unfolding header_delay_ms to_millis
seconds_delay_some n ms = ground arith

seconds_delay_none : (n : ℕ) → (header_delay_ms (seconds n) ≡ none) ↔ (2 ^ 32 ≤ n * 1000)
unfolding header_delay_ms to_millis
seconds_delay_none n = ground arith

HeaderHint-some :
    (o : Option RetryAfter) (ms : ℕ) → (and_then o header_delay_ms ≡ some ms) ↔ HeaderHint o ms
unfolding header_delay_ms to_millis
HeaderHint-some none ms = (λ h. cc, λ (n, same, k, l). cc)
HeaderHint-some (some (http_date date)) ms = (λ h. cc, λ (n, same, k, l). cc)
HeaderHint-some (some (seconds n)) ms = (
  λ h. let (e, l) = (seconds_delay_some n ms).0 h in (n, refl, e, l),
  λ (k, same, e, l).
      let s : n ≡ k = cc in
      subst (λ m. header_delay_ms (seconds m) ≡ some ms) (sym s)
        ((seconds_delay_some k ms).1 (e, l)),
)

NoHeaderHint-none : (o : Option RetryAfter) → (and_then o header_delay_ms ≡ none) ↔ NoHeaderHint o
unfolding header_delay_ms to_millis
NoHeaderHint-none none = (λ h. λ n same. cc, λ h. refl)
NoHeaderHint-none (some (http_date date)) = (λ h. λ n same. cc, λ h. refl)
NoHeaderHint-none (some (seconds n)) = (
  λ h.
      λ k same. let s : n ≡ k = cc in subst (λ m. 2 ^ 32 ≤ m * 1000) s ((seconds_delay_none n).0 h),
  λ h. (seconds_delay_none n).1 (h n refl),
)

abbrev late_delay : ℕ → Option ℕ
late_delay status = if status == 404 || status == 202 then some 500 else none

status_delay_iff :
    (status ms : ℕ)
    → (late_delay status ≡ some ms) ↔ ((ms ≡ 500) × ((status ≡ 404) ⊎ (status ≡ 202)))
status_delay_iff status ms = ground arith

or_delay-some :
    (o other : Option ℕ) (ms : ℕ)
    → or_delay o other ≡ some ms
    → (o ≡ some ms) ⊎ ((o ≡ none) × (other ≡ some ms))
or_delay-some none other ms h = inr (refl, h)
or_delay-some (some k) other ms h = inl h

-- `retry_delay` finds the delay that a pending response asks for, and no other.
module _ (envelope_from : List ℕ → Option Envelope) (response : HttpResponse) where
  pub retry_delay-Pending :
      (ms : ℕ)
      → retry_delay response (unwrap_or (envelope_from response.body) default_envelope) ≡ some ms
      → Pending envelope_from response ms
  unfolding retry_delay
  retry_delay-Pending ms h =
      let o = envelope_from response.body in
      let header = and_then response.retry_after header_delay_ms in
      elim (or_delay-some (unwrap_or o default_envelope).retry_after
        (or_delay header (late_delay response.status)) ms h) [
          | inl e ↦ by_body ((Hinted-some o ms).0 e)
          | inr (e, h) ↦ elim (or_delay-some header (late_delay response.status) ms h) [
            | inl f ↦
                by_header ((Unhinted-none o).0 e) ((HeaderHint-some response.retry_after ms).0 f)
            | inr (f, h) ↦
                let (half, missing) = (status_delay_iff response.status ms).0 h in
                subst (Pending envelope_from response) (sym half) (
                  by_status ((Unhinted-none o).0 e) ((NoHeaderHint-none response.retry_after).0 f)
                    missing)
          ]
        ]

  pub Pending-retry_delay :
      (ms : ℕ)
      → Pending envelope_from response ms
      → retry_delay response (unwrap_or (envelope_from response.body) default_envelope) ≡ some ms
  unfolding retry_delay
  Pending-retry_delay ms (by_body h) = rw ((Hinted-some (envelope_from response.body) ms).1 h) refl
  Pending-retry_delay ms (by_header u h) =
      rw
        (
          (Unhinted-none (envelope_from response.body)).1 u,
          (HeaderHint-some response.retry_after ms).1 h,
        )
        refl
  Pending-retry_delay ms (by_status u k missing) =
      rw
        (
          (Unhinted-none (envelope_from response.body)).1 u,
          (NoHeaderHint-none response.retry_after).1 k,
          (status_delay_iff response.status 500).1 (refl, missing),
        )
        refl
