-- ===== src/Api/Codes.antt =====
-- The codes of the API are told apart by their names and by their statuses, and all are listed.
use headnet.Base.{ℕ, ◌≡◌, refl, ◌||◌, ◌==◌, Option, none, some, List, [], ◌∷◌, if◌then◌else◌}
use headnet.Text.{Text, eq}
use headnet.Api.{
  ErrorCode, bad_request, unauthorized, forbidden, not_found, conflict, payload_too_large,
  rate_limited, unsupported_protocol, not_implemented, unavailable, internal, http_status,
  retryable, known_error_codes, wire_name,
}

-- The code of a list that has the status, as a client would look it up.
unfoldable by_status : ℕ → List ErrorCode → Option ErrorCode
by_status n [] = none
by_status n (c ∷ cs) = let rest = by_status n cs in if http_status c == n then some c else rest

-- The code of a list that has the name.
unfoldable by_name : Text → List ErrorCode → Option ErrorCode
by_name t [] = none
by_name t (c ∷ cs) = let rest = by_name t cs in if eq (wire_name c) t then some c else rest

-- The listed codes are all codes, no two have one status or one name, and those that a client may
-- retry are those with status 429, 500 or 503.
known_error_codes-by_status :
    (c : ErrorCode)
    → (by_status (http_status c) known_error_codes ≡ some c)
      × (by_name (wire_name c) known_error_codes ≡ some c)
      × (retryable c ≡ (http_status c == 429 || http_status c == 500 || http_status c == 503))
unfolding by_status by_name known_error_codes http_status wire_name retryable eq
known_error_codes-by_status bad_request = (refl, refl, refl)
known_error_codes-by_status unauthorized = (refl, refl, refl)
known_error_codes-by_status forbidden = (refl, refl, refl)
known_error_codes-by_status not_found = (refl, refl, refl)
known_error_codes-by_status conflict = (refl, refl, refl)
known_error_codes-by_status payload_too_large = (refl, refl, refl)
known_error_codes-by_status rate_limited = (refl, refl, refl)
known_error_codes-by_status unsupported_protocol = (refl, refl, refl)
known_error_codes-by_status not_implemented = (refl, refl, refl)
known_error_codes-by_status unavailable = (refl, refl, refl)
known_error_codes-by_status internal = (refl, refl, refl)
