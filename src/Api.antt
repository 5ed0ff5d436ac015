-- ===== src/Api.antt =====
-- packages/api/errors.go: the codes of the errors that the API returns, with their statuses.
pub mod Codes
pub mod Health
use headnet.Base.{ℕ, Bool, true, false, List, [], ◌∷◌}
use headnet.Text.{Text, codes}

pub data ErrorCode : Type 0 where
  bad_request unauthorized forbidden not_found conflict payload_too_large : ErrorCode
  rate_limited unsupported_protocol not_implemented unavailable internal : ErrorCode

-- ErrorCode.HTTPStatus; no code is unknown here.
unfoldable pub http_status : ErrorCode → ℕ
http_status bad_request = 400
http_status unauthorized = 401
http_status forbidden = 403
http_status not_found = 404
http_status conflict = 409
http_status payload_too_large = 413
http_status rate_limited = 429
http_status unsupported_protocol = 426
http_status not_implemented = 501
http_status unavailable = 503
http_status internal = 500

-- ErrorCode.Retryable
unfoldable pub retryable : ErrorCode → Bool
retryable rate_limited = true
retryable unavailable = true
retryable internal = true
retryable _ = false

-- KnownErrorCodes
unfoldable pub known_error_codes : List ErrorCode
known_error_codes =
    bad_request ∷ unauthorized ∷ forbidden ∷ not_found ∷ conflict ∷ payload_too_large ∷ rate_limited
    ∷ unsupported_protocol ∷ not_implemented ∷ unavailable ∷ internal ∷ []

-- The text of a code.
unfoldable pub wire_name : ErrorCode → Text
wire_name bad_request = codes "bad_request"
wire_name unauthorized = codes "unauthorized"
wire_name forbidden = codes "forbidden"
wire_name not_found = codes "not_found"
wire_name conflict = codes "conflict"
wire_name payload_too_large = codes "payload_too_large"
wire_name rate_limited = codes "rate_limited"
wire_name unsupported_protocol = codes "unsupported_protocol_version"
wire_name not_implemented = codes "not_implemented"
wire_name unavailable = codes "unavailable"
wire_name internal = codes "internal"
