-- ===== src/Error.antt =====
-- The server's errors (server/src/error.rs) and the two ways in which its functions fail: a pure function
-- returns a `Result`; a handler is an action of `Exec`, which keeps what was written before an error.
pub mod Exec
pub mod Ensures
pub mod Cases
pub mod Gives
use nexa_drive.Prelude.{ℕ, ◌≡◌, refl, Bool, true, false, Option, none, some, String}

-- The text of an error: a literal, a literal around one number (`format!`), or a literal before
-- another text.
pub data Message : Type 0 where
  plain : String → Message
  numbered : String → ℕ → String → Message
  prefixed : String → Message → Message

pub data AppError : Type 0 where
  unauthorized forbidden not_found : AppError
  conflict : Message → AppError
  conflict_code : Message → String → AppError
  bad_request : Message → AppError
  unsupported_media too_many_requests database io internal service_unavailable : AppError

pub record ErrorResponse : Type 0 where
  pub status : ℕ
  pub message : Message
  pub code : Option String

-- `Display for AppError`
unfoldable pub message_of : AppError → Message
message_of unauthorized = plain "unauthorized"
message_of forbidden = plain "forbidden"
message_of not_found = plain "not found"
message_of (conflict m) = prefixed "conflict: " m
message_of (conflict_code m c) = prefixed "conflict: " m
message_of (bad_request m) = prefixed "bad request: " m
message_of unsupported_media = plain "unsupported media type"
message_of too_many_requests = plain "too many requests"
message_of database = plain "database error"
message_of io = plain "io error"
message_of internal = plain "internal error"
message_of service_unavailable = plain "service unavailable"

abbrev answer : ℕ → String → ErrorResponse
answer status message = record { status = status; message = plain message; code = none }

-- `IntoResponse for AppError`: the status, the field `error` and, if there is one, the field `code`.
unfoldable pub into_response : AppError → ErrorResponse
into_response unauthorized = answer 401 "Unauthorized"
into_response forbidden = answer 403 "Forbidden"
into_response not_found = answer 404 "Not found"
into_response (conflict m) = record { status = 409; message = m; code = none }
into_response (conflict_code m c) = record { status = 409; message = m; code = some c }
into_response (bad_request m) = record { status = 400; message = m; code = none }
into_response unsupported_media = answer 415 "Unsupported image format"
into_response too_many_requests = answer 429 "Too many login attempts. Try again later."
into_response database = answer 500 "Internal server error"
into_response io = answer 500 "Internal server error"
into_response internal = answer 500 "Internal server error"
into_response service_unavailable = answer 503 "The server is busy. Try again shortly."

pub data Result {ℓ} (A : Type ℓ) : Type ℓ where
  ok : A → Result A
  err : AppError → Result A

-- `Option::ok_or`
abbrev pub or_error {ℓ} : {A : Type ℓ} → Option A → AppError → Result A
or_error none e = err e
or_error (some a) e = ok a

-- `?`: the first error ends a function.
module _ {ℓ κ} {A : Type ℓ} {B : Type κ} where
  infixl 10 ◌>>=◌
  abbrev pub ◌>>=◌ : Result A → (A → Result B) → Result B
  err e >>= rest = err e
  ok a >>= rest = rest a

module _ {κ} {B : Type κ} where
  infixl 10 ◌>>◌
  abbrev pub ◌>>◌ : Result (Unit {0}) → Result B → Result B
  step >> rest = step >>= λ _. rest

-- `if !test { return Err(e) }`
abbrev pub guard : Bool → AppError → Result (Unit {0})
guard false e = err e
guard true e = ok tt
