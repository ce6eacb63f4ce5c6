-- ===== src/Service/Envelope.antt =====
-- keetanetwork-anchor-client/src/service/envelope.rs. The JSON decoder is an argument: of the envelope's
-- two fields, of a value, and of the operation's own type.
pub mod Pending
pub mod Laws
use anchor_rs.Prelude.{
  ℕ, Bool, true, false, not, ◌||◌, Option, none, some, and_then, unwrap_or, List, u32_max, leb,
  ◌==◌, if◌then◌else◌,
}
use anchor_rs.Prelude.Outcomes.{Outcome, success, failure, ok_or}
use anchor_rs.Http.RetryAfter.{RetryAfter, to_millis}
use anchor_rs.Http.Response.{HttpResponse, is_success}
use anchor_rs.Json.{Value}
use anchor_rs.Asset.Blocker.{Blocker, from_transport, is_recognized}

pub data AnchorOutcome (A : Type 0) : Type 0 where
  ready : A → AnchorOutcome A
  retry : (after_ms : ℕ) → AnchorOutcome A

-- `AnchorOutcome::ready`
abbrev pub into_ready : {A : Type 0} → AnchorOutcome A → Option A
into_ready (ready value) = some value
into_ready (retry after_ms) = none

-- `Envelope`
pub record Envelope : Type 0 where
  pub ok : Option Bool
  pub retry_after : Option ℕ

abbrev pub default_envelope : Envelope
default_envelope = record { ok = none; retry_after = none }

-- The variants of `AnchorClientError` that decoding gives.
pub data ResponseError : Type 0 where
  body : ResponseError
  service : (status : ℕ) → ResponseError
  blocked : Blocker → ResponseError

abbrev pub default_retry_ms : ℕ
default_retry_ms = 500

abbrev pub not_found : ℕ
not_found = 404

abbrev pub accepted : ℕ
accepted = 202

-- `u32::try_from`
abbrev pub to_u32 : ℕ → Option ℕ
to_u32 n = if leb n u32_max then some n else none

-- `header_delay_ms`
unfoldable pub header_delay_ms : RetryAfter → Option ℕ
unfolding to_millis
header_delay_ms retry_after = and_then (to_millis retry_after) to_u32

-- The first of two delays that there is.
abbrev pub or_delay : Option ℕ → Option ℕ → Option ℕ
or_delay (some after_ms) other = some after_ms
or_delay none other = other

-- `retry_delay`
unfoldable pub retry_delay : HttpResponse → Envelope → Option ℕ
retry_delay response envelope = or_delay envelope.retry_after (
    or_delay (and_then response.retry_after header_delay_ms) (
      if response.status == not_found || response.status == accepted
      then some default_retry_ms
      else none))

-- `envelope.ok == Some(false)`
abbrev pub is_refused : Option Bool → Bool
is_refused none = false
is_refused (some ok) = not ok

module _ (envelope_from : List ℕ → Option Envelope) (value_from : List ℕ → Option Value) where
  -- `failure` with the feature `asset`.
  abbrev pub rehydrated : ℕ → Option Value → ResponseError
  rehydrated status none = service status
  rehydrated status (some value) =
      if is_recognized (from_transport value)
      then blocked (from_transport value)
      else service status

  abbrev pub envelope_of : HttpResponse → Envelope
  envelope_of response = unwrap_or (envelope_from response.body) default_envelope

  -- `pending_delay`
  unfoldable pub pending_delay : HttpResponse → Option ℕ
  pending_delay response = retry_delay response (envelope_of response)

  module _ {A : Type 0} (decode : List ℕ → Option A) where
    abbrev pub ready_of : Option A → Outcome ResponseError (AnchorOutcome A)
    ready_of none = failure body
    ready_of (some value) = success (ready value)

    abbrev pub settled : HttpResponse → Option ℕ → Outcome ResponseError (AnchorOutcome A)
    settled response (some after_ms) = success (retry after_ms)
    settled response none =
        if not (is_success response) || is_refused (envelope_of response).ok
        then failure (rehydrated response.status (value_from response.body))
        else ready_of (decode response.body)

    -- `classify`
    unfoldable pub classify : HttpResponse → Outcome ResponseError (AnchorOutcome A)
    classify response = settled response (retry_delay response (envelope_of response))
