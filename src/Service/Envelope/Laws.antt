-- ===== src/Service/Envelope/Laws.antt =====
-- The outcomes of `classify`: keetanetwork-anchor-client/src/service/envelope.rs.
use anchor_rs.Prelude.{
  ℕ, ◌<◌, ◌≤◌, ◌≡◌, ◌≢◌, ◌↔◌, inl, inr, refl, subst, Bool, true, false, not, ◌||◌, Option,
  Option-cases, none, some, unwrap_or, List, if◌then◌else◌, arith,
}
use anchor_rs.Prelude.Outcomes.{Outcome, success, failure}
use anchor_rs.Http.Response.{HttpResponse, is_success}
use anchor_rs.Json.{Value}
use anchor_rs.Service.Envelope.{
  ready, retry, Envelope, default_envelope, ResponseError, retry_delay, is_refused, envelope_of,
  pending_delay, ready_of, settled, classify,
}
use anchor_rs.Service.Envelope.Pending.{Pending, retry_delay-Pending, Pending-retry_delay}

refused-cases :
    {A : Type 0} (e : ResponseError) {x : A} (c : Bool) (o : Outcome ResponseError A)
    → (o ≢ success x)
    → (if c then failure e else o) ≢ success x
refused-cases e true o k h = cc
refused-cases e false o k h = k h

-- No envelope that is read from the body says that it failed.
abbrev pub Unrefused : Option Envelope → Type 0
Unrefused o = (e : Envelope) → o ≡ some e → e.ok ≢ some false

Unrefused-iff :
    (o : Option Envelope) → (is_refused (unwrap_or o default_envelope).ok ≡ false) ↔ Unrefused o
Unrefused-iff none = (λ h. λ e same. cc, λ h. refl)
Unrefused-iff (some e) = (
  λ h. λ e' same. let s : e ≡ e' = cc in subst (λ e. e.ok ≢ some false) s (refused-sound e.ok h),
  λ h. refused-complete e.ok (h e refl),
)
  where
    refused-sound : (o : Option Bool) → is_refused o ≡ false → o ≢ some false
    refused-sound none h = cc
    refused-sound (some true) h = cc
    refused-sound (some false) h = cc

    refused-complete : (o : Option Bool) → o ≢ some false → is_refused o ≡ false
    refused-complete none h = refl
    refused-complete (some true) h = refl
    refused-complete (some false) h = absurd (h refl)

success_iff :
    (response : HttpResponse)
    → (is_success response ≡ true) ↔ ((200 ≤ response.status) × (response.status < 300))
unfolding is_success
success_iff response = ground arith

none-some : {A : Type 0} {o : Option A} {a : A} → o ≡ none → ¬ (o ≡ some a)
none-some n s = cc

accepted-cases :
    {A : Type 0} (e : ResponseError) {x : A} (w r : Bool) {o : Outcome ResponseError A}
    → (if not w || r then failure e else o) ≡ success x
    → (w ≡ true) × (r ≡ false) × (o ≡ success x)
accepted-cases e true true h = cc
accepted-cases e true false h = (refl, refl, h)
accepted-cases e false r h = cc

module _ (envelope_from : List ℕ → Option Envelope) (value_from : List ℕ → Option Value) where
  module _ {A : Type 0} (decode : List ℕ → Option A) where
    ready_of-ready :
        (o : Option A) (a : A)
        → ready_of envelope_from value_from decode o ≡ success (ready a)
        → o ≡ some a
    ready_of-ready none a h = cc
    ready_of-ready (some b) a h = cc

    ready_of-retry :
        (o : Option A) (ms : ℕ) → ready_of envelope_from value_from decode o ≢ success (retry ms)
    ready_of-retry none ms h = cc
    ready_of-retry (some b) ms h = cc

    -- What the refused case and the decoded case have in common: neither is a retry.
    settled-retry :
        (response : HttpResponse) (o : Option ℕ) (ms : ℕ)
        → settled envelope_from value_from decode response o ≡ success (retry ms)
        → o ≡ some ms
    settled-retry response (some after_ms) ms h = cc
    settled-retry response none ms h = absurd (
        refused-cases _
          (not (is_success response)
            || is_refused (envelope_of envelope_from value_from response).ok)
          (ready_of envelope_from value_from decode (decode response.body))
          (ready_of-retry (decode response.body) ms) h)

    settled_delay :
        (response : HttpResponse)
        → ((ms : ℕ) → ¬ Pending envelope_from response ms)
        → retry_delay response (envelope_of envelope_from value_from response) ≡ none
    settled_delay response h =
        elim (Option-cases (retry_delay response (envelope_of envelope_from value_from response))) [
          | inl e ↦ e
          | inr (ms, e) ↦ absurd (h ms (retry_delay-Pending envelope_from response ms e))
        ]

    -- All that makes a response a ready value.
    pub record IsReady (response : HttpResponse) (a : A) : Type 0 where
      pub not_pending : (ms : ℕ) → ¬ Pending envelope_from response ms
      pub from_200 : 200 ≤ response.status
      pub below_300 : response.status < 300
      pub not_refused : Unrefused (envelope_from response.body)
      pub decodes : decode response.body ≡ some a

    settled-ready :
        (response : HttpResponse) (o : Option ℕ) (a : A)
        → settled envelope_from value_from decode response o ≡ success (ready a)
        → (o ≡ none)
          × (is_success response ≡ true)
          × (is_refused (envelope_of envelope_from value_from response).ok ≡ false)
          × (decode response.body ≡ some a)
    settled-ready response (some after_ms) a h = cc
    settled-ready response none a h =
        let (won, kept, e) =
          accepted-cases _ (is_success response)
            (is_refused (envelope_of envelope_from value_from response).ok) h in
        (refl, won, kept, ready_of-ready (decode response.body) a e)

    -- Decoding asks for a retry after a delay exactly when the response is pending for that delay: its body
    -- has a hint, else its header has a number of seconds whose milliseconds have 32 bits, else its status
    -- is 404 or 202 and the delay is 500. `pending_delay` finds the same delay in the same cases.
    pub classify-retry_iff :
        (response : HttpResponse) (ms : ℕ)
        → ((classify envelope_from value_from decode response ≡ success (retry ms))
            ↔ Pending envelope_from response ms)
          × ((pending_delay envelope_from value_from response ≡ some ms)
              ↔ Pending envelope_from response ms)
    unfolding classify pending_delay
    classify-retry_iff response ms = (
      (
        λ h. retry_delay-Pending envelope_from response ms (
            settled-retry response
              (retry_delay response (envelope_of envelope_from value_from response)) ms h),
        λ p. rw (Pending-retry_delay envelope_from response ms p) refl,
      ),
      (
        retry_delay-Pending envelope_from response ms,
        Pending-retry_delay envelope_from response ms,
      ),
    )

    -- Decoding gives a value exactly when the response is pending for no delay, its status is from 200 to
    -- 299, no envelope read from its body has `ok` false, and its body decodes to the value.
    pub classify-ready_iff :
        (response : HttpResponse) (a : A)
        → (classify envelope_from value_from decode response ≡ success (ready a))
          ↔ IsReady response a
    unfolding classify is_success
    classify-ready_iff response a = (
      λ h.
          let delay = retry_delay response (envelope_of envelope_from value_from response) in
          let (n, w, k, d) = settled-ready response delay a h in
          let (low, high) = (success_iff response).0 w in
          record {
            not_pending = λ ms p. none-some n (Pending-retry_delay envelope_from response ms p);
            from_200 = low;
            below_300 = high;
            not_refused = (Unrefused-iff (envelope_from response.body)).0 k;
            decodes = d;
          },
      λ r.
          rw
            (
              settled_delay response r.not_pending,
              (success_iff response).1 (r.from_200, r.below_300),
              (Unrefused-iff (envelope_from response.body)).1 r.not_refused,
              r.decodes,
            )
            refl,
    )
