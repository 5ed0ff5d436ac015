-- ===== src/Config.antt =====
-- internal/config: the server's configuration and the rules that make it valid. Each message that
-- Validate can report is a problem; the text of a message is not modelled. Durations and counts are
-- the signed integers of the source.
pub mod Problems
pub mod Pools
pub mod WellFormed
pub mod Reserved
pub mod Tests
use headnet.Base.{
  ℕ, Bool, true, false, ◌&&◌, ◌||◌, not, Option, none, some, List, [], ◌∷◌, ◌++◌, if◌then◌else◌,
}
use headnet.Base.Int.{ℤ, pos, int_leb, is_negative}
use headnet.Text.{Text, codes, eq, trim_space}
use headnet.Platform.{Platform, lower}
use headnet.Config.Problems.{
  Problem, Parsers, Timeout, read_timeout, write_timeout, idle_timeout, shutdown_timeout,
  environment_unset, environment_invalid, listen_unset, listen_malformed, listen_no_port,
  base_url_unset, base_url_malformed, base_url_scheme, base_url_no_host, base_url_insecure,
  timeout_not_positive, max_body_bytes_not_positive, path_unset, dsn_unset, driver_unset,
  driver_unsupported, max_open_conns_not_positive, max_idle_conns_negative, max_idle_conns_exceed,
  conn_max_lifetime_negative, providers_unset, session_lifetime_not_positive, session_idle_negative,
  session_idle_exceeds, min_password_too_low, provider_unsupported, provider_twice,
  log_level_unknown, log_format_unknown, requests_not_positive, burst_not_positive,
  auth_requests_not_positive, auth_burst_not_positive, auth_requests_exceed,
}
use headnet.Config.Pools.{NetworkConfig, validate_network}

pub record ServerConfig : Type 0 where
  pub listen : Text
  pub base_url : Text
  pub allow_insecure_http : Bool
  pub read_timeout : ℤ
  pub write_timeout : ℤ
  pub idle_timeout : ℤ
  pub shutdown_timeout : ℤ
  pub max_body_bytes : ℤ

pub record DatabaseConfig : Type 0 where
  pub driver : Text
  pub path : Text
  pub dsn : Text
  pub max_open_conns : ℤ
  pub max_idle_conns : ℤ
  pub conn_max_lifetime : ℤ

pub record AuthConfig : Type 0 where
  pub providers : List Text
  pub session_lifetime : ℤ
  pub session_idle_timeout : ℤ
  pub min_password_length : ℤ

pub record LogConfig : Type 0 where
  pub level : Text
  pub format : Text

pub record RateLimitConfig : Type 0 where
  pub enabled : Bool
  pub requests_per_minute : ℤ
  pub burst : ℤ
  pub auth_requests_per_minute : ℤ
  pub auth_burst : ℤ

pub record Config : Type 0 where
  pub environment : Text
  pub server : ServerConfig
  pub database : DatabaseConfig
  pub network : NetworkConfig
  pub auth : AuthConfig
  pub log : LogConfig
  pub rate_limit : RateLimitConfig

-- if test { problems = append(problems, p) }
abbrev pub when : Bool → Problem → List Problem
when test p = if test then p ∷ [] else []

abbrev pub at_most_zero : ℤ → Bool
at_most_zero x = int_leb x (pos 0)

-- a > b
abbrev pub exceeds : ℤ → ℤ → Bool
exceeds a b = not (int_leb a b)

-- Config.validateEnvironment
unfoldable pub validate_environment : Text → List Problem
validate_environment env =
    if eq env (codes "development") || eq env (codes "production")
    then []
    else if eq env []
    then environment_unset ∷ []
    else environment_invalid ∷ []

abbrev pub check_listen : Option (Text × Text) → List Problem
check_listen none = listen_malformed ∷ []
check_listen (some (host, port)) = when (eq port []) listen_no_port

abbrev pub check_url : Text → Bool → Option (Text × Text) → List Problem
check_url env insecure none = base_url_malformed ∷ []
check_url env insecure (some (scheme, host)) =
    if not (eq scheme (codes "http")) && not (eq scheme (codes "https"))
    then base_url_scheme ∷ []
    else if eq host []
    then base_url_no_host ∷ []
    else when (eq env (codes "production") && eq scheme (codes "http") && not insecure)
        base_url_insecure

-- ServerConfig.validate
unfoldable pub validate_server : Parsers → Text → ServerConfig → List Problem
validate_server parsers env s =
    (if eq s.listen [] then listen_unset ∷ [] else check_listen (parsers.split_host_port s.listen))
    ++ (if eq s.base_url []
        then base_url_unset ∷ []
        else check_url env s.allow_insecure_http (parsers.parse_url s.base_url))
    ++ when (at_most_zero s.read_timeout) (timeout_not_positive read_timeout)
    ++ when (at_most_zero s.write_timeout) (timeout_not_positive write_timeout)
    ++ when (at_most_zero s.idle_timeout) (timeout_not_positive idle_timeout)
    ++ when (at_most_zero s.shutdown_timeout) (timeout_not_positive shutdown_timeout)
    ++ when (at_most_zero s.max_body_bytes) max_body_bytes_not_positive

unfoldable pub check_driver : DatabaseConfig → List Problem
check_driver d =
    if eq d.driver (codes "sqlite")
    then when (eq (trim_space d.path) []) path_unset
    else if eq d.driver (codes "postgres")
    then when (eq (trim_space d.dsn) []) dsn_unset
    else if eq d.driver []
    then driver_unset ∷ []
    else driver_unsupported ∷ []

-- DatabaseConfig.validate
unfoldable pub validate_database : DatabaseConfig → List Problem
unfolding check_driver
validate_database d =
    check_driver d
    ++ when (at_most_zero d.max_open_conns) max_open_conns_not_positive
    ++ when (is_negative d.max_idle_conns) max_idle_conns_negative
    ++ when (not (at_most_zero d.max_open_conns) && exceeds d.max_idle_conns d.max_open_conns)
        max_idle_conns_exceed
    ++ when (is_negative d.conn_max_lifetime) conn_max_lifetime_negative

abbrev pub password_floor : ℕ
password_floor = 12

abbrev pub eq_none : List Text → Bool
eq_none [] = true
eq_none (p ∷ ps) = false

unfoldable pub listed : Text → List Text → Bool
listed p [] = false
listed p (q ∷ qs) = eq p q || listed p qs

-- The loop over the providers, with those that it has seen.
unfoldable pub check_providers : List Text → List Text → List Problem
unfolding listed
check_providers seen [] = []
check_providers seen (p ∷ ps) =
    let skipped = check_providers seen ps in
    let kept = check_providers (p ∷ seen) ps in
    if not (eq p (codes "local") || eq p (codes "oidc"))
    then provider_unsupported p ∷ skipped
    else if listed p seen
    then provider_twice p ∷ skipped
    else kept

-- AuthConfig.validate
unfoldable pub validate_auth : AuthConfig → List Problem
unfolding check_providers
validate_auth a =
    if eq_none a.providers
    then providers_unset ∷ []
    else when (at_most_zero a.session_lifetime) session_lifetime_not_positive
      ++ when (is_negative a.session_idle_timeout) session_idle_negative
      ++ when
          (not (at_most_zero a.session_idle_timeout)
            && not (at_most_zero a.session_lifetime)
            && exceeds a.session_idle_timeout a.session_lifetime)
          session_idle_exceeds
      ++ when (exceeds (pos password_floor) a.min_password_length) min_password_too_low
      ++ check_providers [] a.providers

-- logging.ParseLevel succeeds.
unfoldable pub knows_level : Platform → Text → Bool
knows_level p name =
    let level = lower p (trim_space name) in
    eq level (codes "debug")
    || eq level []
    || eq level (codes "info")
    || eq level (codes "warn")
    || eq level (codes "warning")
    || eq level (codes "error")

-- logging.ParseFormat succeeds.
unfoldable pub knows_format : Platform → Text → Bool
knows_format p name =
    let format = lower p (trim_space name) in
    eq format [] || eq format (codes "json") || eq format (codes "text")

-- LogConfig.validate
unfoldable pub validate_log : Platform → LogConfig → List Problem
unfolding knows_level knows_format
validate_log p l =
    when (not (knows_level p l.level)) log_level_unknown
    ++ when (not (knows_format p l.format)) log_format_unknown

-- RateLimitConfig.validate
unfoldable pub validate_rate_limit : RateLimitConfig → List Problem
validate_rate_limit r =
    if not r.enabled
    then []
    else when (at_most_zero r.requests_per_minute) requests_not_positive
      ++ when (at_most_zero r.burst) burst_not_positive
      ++ when (at_most_zero r.auth_requests_per_minute) auth_requests_not_positive
      ++ when (at_most_zero r.auth_burst) auth_burst_not_positive
      ++ when (exceeds r.auth_requests_per_minute r.requests_per_minute) auth_requests_exceed

-- Config.Validate: every problem, in the order of the checks.
unfoldable pub validate : Platform → Parsers → Config → List Problem
validate p parsers c =
    validate_environment c.environment
    ++ validate_server parsers c.environment c.server
    ++ validate_database c.database
    ++ validate_network parsers c.network
    ++ validate_auth c.auth
    ++ validate_log p c.log
    ++ validate_rate_limit c.rate_limit
