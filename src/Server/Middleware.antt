-- ===== src/Server/Middleware.antt =====
-- internal/httpapi/middleware.go, and the chain that buildHandler of internal/server/server.go makes
-- of it. A handler gets the headers that are set so far and the shared state, which is the limiter
-- and what the routes change. The logger in the context is left out, and a panic is one before the
-- answer is begun.
use headnet.Base.{ℕ, Bool, not, Option, none, some, List, [], ◌∷◌, if◌then◌else◌}
use headnet.Base.Int.{ℤ}
use headnet.Text.{Text, codes, eq}
use headnet.Protocol.{print_int}
use headnet.Api.{rate_limited, internal}
use headnet.RateLimit.{Floats, Limiter, Decision, allow}
use headnet.Server.{Response, says, error_reply, with_details}

abbrev pub Headers : Type 0
Headers = List (Text × Text)

-- http.Header.Set and Get
unfoldable pub set_header : Text → Text → Headers → Headers
set_header name value [] = (name, value) ∷ []
set_header name value ((key, old) ∷ rest) =
    let others = set_header name value rest in
    if eq key name then (key, value) ∷ rest else (key, old) ∷ others

unfoldable pub get_header : Text → Headers → Option Text
get_header name [] = none
get_header name ((key, value) ∷ rest) = if eq key name then some value else get_header name rest

pub record WireRequest : Type 0 where
  pub remote_addr : Text
  -- The identifier in the context.
  pub request_id : Text
  pub has_body : Bool
  pub body_limit : Option ℤ
  pub received_at : ℕ

-- A panic with http.ErrAbortHandler, or with another value.
pub data Panic : Type 0 where
  abort_handler other_panic : Panic

pub data Answer : Type 0 where
  -- The headers, the identifier that an error is stamped with, and the rest of the answer.
  answered : Headers → Text → Response → Answer
  panicked : Headers → Panic → Answer

abbrev pub WireHandler : Type 0 → Type 0
WireHandler S = WireRequest → Headers → S → Answer × S

abbrev pub Layer : Type 0 → Type 0
Layer S = WireHandler S → WireHandler S

-- Chain
unfoldable pub chain : {S : Type 0} → WireHandler S → List (Layer S) → WireHandler S
chain h [] = h
chain h (layer ∷ layers) = layer (chain h layers)

abbrev pub request_id_header : Text
request_id_header = codes "X-Request-Id"

abbrev pub hardened : Bool → Headers → Headers
hardened hsts h =
    let kept = set_header (codes "Cross-Origin-Resource-Policy") (codes "same-origin") (
      set_header (codes "Cross-Origin-Opener-Policy") (codes "same-origin") (
        set_header (codes "Content-Security-Policy")
          (codes "default-src 'none'; frame-ancestors 'none'; base-uri 'none'")
          (set_header (codes "Referrer-Policy") (codes "no-referrer") (
            set_header (codes "X-Frame-Options") (codes "DENY")
              (set_header (codes "X-Content-Type-Options") (codes "nosniff") h))))) in
    if hsts
    then set_header (codes "Strict-Transport-Security")
        (codes "max-age=31536000; includeSubDomains") kept
    else kept

module _ {S : Type 0} where
  -- RequestID, with what NewID returns.
  unfoldable pub with_request_id : Text → Layer S
  unfolding set_header
  with_request_id id next r h s =
      next (record r { request_id = id }) (set_header request_id_header id h) s

  -- The error is written for the request that the recoverer got.
  abbrev pub recover : WireRequest → Answer × S → Answer × S
  recover r (answered h id response, s) = (answered h id response, s)
  recover r (panicked h abort_handler, s) = (panicked h abort_handler, s)
  recover r (panicked h other_panic, s) =
      (answered h r.request_id (error_reply internal (codes "internal error")), s)

  -- Recoverer
  unfoldable pub recoverer : Layer S
  recoverer next r h s = recover r (next r h s)

  -- SecurityHeaders
  unfoldable pub security_headers : Bool → Layer S
  unfolding set_header
  security_headers hsts next r h s = next r (hardened hsts h) s

  -- MaxBodyBytes
  unfoldable pub max_body_bytes : ℤ → Layer S
  max_body_bytes limit next r h s =
      if r.has_body then next (record r { body_limit = some limit }) h s else next r h s

-- net.SplitHostPort, the host only, and int(d.Seconds())
pub record NetPackages : Type 0 where
  pub split_host : Text → Option Text
  pub whole_seconds : ℤ → ℤ

-- ClientIP
unfoldable pub client_ip : NetPackages → WireRequest → Text
client_ip p r = host_or (p.split_host r.remote_addr)
  where
    host_or : Option Text → Text
    host_or none = r.remote_addr
    host_or (some host) = host

abbrev pub too_many_requests : Text → Response
too_many_requests seconds =
    with_details rate_limited (says (codes "too many requests; slow down and try again shortly"))
      ((codes "retry_after_seconds", seconds) ∷ [])

module _ {F T : Type 0} (fl : Floats F) (p : NetPackages) where
  abbrev pub limited :
      WireHandler (Limiter F × T)
      → WireRequest
      → Headers
      → T
      → Decision × Limiter F
      → Answer × (Limiter F × T)
  limited next r h t (d, l) =
      let seconds = print_int (p.whole_seconds d.retry_after) in
      if not d.allowed
      then (
        answered (set_header (codes "Retry-After") seconds h) r.request_id
            (too_many_requests seconds),
        (l, t),
      )
      else next r h (l, t)

  -- RateLimit; `enabled` is that there is a limiter.
  unfoldable pub rate_limit : Bool → Layer (Limiter F × T)
  unfolding allow client_ip set_header
  rate_limit enabled next r h (l, t) =
      if not enabled
      then next r h (l, t)
      else limited next r h t (allow fl (client_ip p r) r.received_at l)

  -- buildHandler, without the layers that only log.
  unfoldable pub build_handler :
      Bool → Bool → ℤ → Text → WireHandler (Limiter F × T) → WireHandler (Limiter F × T)
  unfolding chain recoverer with_request_id security_headers rate_limit max_body_bytes
  build_handler hsts enabled max_bytes id routes = chain routes (
      recoverer
      ∷ with_request_id id
      ∷ security_headers hsts
      ∷ rate_limit enabled
      ∷ max_body_bytes max_bytes
      ∷ [])
