-- ===== src/Http/Response.antt =====
-- keetanetwork-anchor-client/src/transport/mod.rs: a completed response.
use anchor_rs.Prelude.{ℕ, Bool, ◌&&◌, Option, none, List, leb, ltb}
use anchor_rs.Http.RetryAfter.{RetryAfter}

pub record HttpResponse : Type 0 where
  pub status : ℕ
  pub body : List ℕ
  pub retry_after : Option RetryAfter

-- `HttpResponse::new`
abbrev pub new : ℕ → List ℕ → HttpResponse
new status body = record { status = status; body = body; retry_after = none }

-- `HttpResponse::with_retry_after`
abbrev pub with_retry_after : HttpResponse → Option RetryAfter → HttpResponse
with_retry_after response hint = record response { retry_after = hint }

-- `HttpResponse::is_success`
unfoldable pub is_success : HttpResponse → Bool
is_success response = leb 200 response.status && ltb response.status 300
