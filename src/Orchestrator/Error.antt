-- ===== src/Orchestrator/Error.antt =====
-- orchestrator/src/error.rs: errors as values, and the HTTP responses that they become.
use decentralized_hive_mind.Prelude.{ℕ, ◌≡◌, Text, text, arith}
use decentralized_hive_mind.Common.Identity.{IdentityError}

-- The errors of `sqlx`, `redis` and `anyhow` carry their message alone.
pub data AppError : Type 0 where
  not_found unauthorized rate_limited : AppError
  bad_request : Text → AppError
  database redis internal : Text → AppError
  identity : IdentityError → AppError

pub data AppResult (A : Type 0) : Type 0 where
  ok : A → AppResult A
  err : AppError → AppResult A

-- `e?` in a function without effects
infixl 5 ◌>>=◌ ◌>>◌
abbrev pub ◌>>=◌ : {A B : Type 0} → AppResult A → (A → AppResult B) → AppResult B
ok a >>= f = f a
err e >>= f = err e

abbrev pub ◌>>◌ : {B : Type 0} → AppResult (Unit {0}) → AppResult B → AppResult B
m >> k = m >>= λ _. k

-- An HTTP response that reports an error: `Json(json!({ "error": message }))`.
pub record ErrorResponse : Type 0 where
  pub status : ℕ
  pub message : Text

abbrev pub respond : ℕ → Text → ErrorResponse
respond s m = record { status = s; message = m }

-- `AppError::into_response`
unfoldable pub into_response : AppError → ErrorResponse
into_response not_found = respond 404 (text "not found")
into_response (bad_request msg) = respond 400 msg
into_response unauthorized = respond 401 (text "unauthorized")
into_response rate_limited = respond 429 (text "rate limited")
into_response (database _) = respond 500 (text "internal error")
into_response (redis _) = respond 500 (text "internal error")
into_response _ = respond 500 (text "internal error")

-- A server error never carries the detail of what went wrong: two errors with the status 500 have
-- the same response.
into_response_opaque :
    (e f : AppError)
    → (into_response e).status ≡ 500
    → (into_response f).status ≡ 500
    → into_response e ≡ into_response f
unfolding into_response
into_response_opaque e f p q = ground arith
