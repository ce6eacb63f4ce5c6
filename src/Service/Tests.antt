-- ===== src/Service/Tests.antt =====
-- Decoding a concrete response.
use anchor_rs.Prelude.{ℕ, ◌≡◌, ◌↔◌, Option, none, some, codes, List, [], ◌∷◌}
use anchor_rs.Prelude.Outcomes.{success}
use anchor_rs.Http.Response
use anchor_rs.Http.Response.{HttpResponse, is_success}
use anchor_rs.Json.{Value, object, field, end, string}
use anchor_rs.Asset.Blocker.{user_action_needed_code}
use anchor_rs.Service.Envelope.{Envelope, ready, retry, classify, pending_delay}
use anchor_rs.Service.Envelope.Pending.{Pending}
use anchor_rs.Service.Envelope.Laws.{IsReady, classify-retry_iff, classify-ready_iff}

abbrev no_envelope : List ℕ → Option Envelope
no_envelope body = none

abbrev refusal : List ℕ → Option Value
refusal body = some (object (field (codes "code") (string user_action_needed_code) end))

abbrev first : List ℕ → Option ℕ
first [] = none
first (b ∷ body) = some b

classify-retry_iff_example :
    ((classify no_envelope refusal first (Response.new 404 []) ≡ success (retry 500))
      ↔ Pending no_envelope (Response.new 404 []) 500)
    × ((pending_delay no_envelope refusal (Response.new 404 []) ≡ some 500)
        ↔ Pending no_envelope (Response.new 404 []) 500)
classify-retry_iff_example = classify-retry_iff no_envelope refusal first (Response.new 404 []) 500

classify-ready_iff_example :
    (classify no_envelope refusal first (Response.new 200 (7 ∷ [])) ≡ success (ready 7))
    ↔ IsReady no_envelope refusal first (Response.new 200 (7 ∷ [])) 7
classify-ready_iff_example =
    classify-ready_iff no_envelope refusal first (Response.new 200 (7 ∷ [])) 7
