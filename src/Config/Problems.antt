-- ===== src/Config/Problems.antt =====
-- What Validate of internal/config can report, one constructor for each message, and what the
-- packages net, net/url and net/netip make of the texts of a configuration.
use headnet.Base.{Option}
use headnet.Text.{Text}
use headnet.Netip.{Prefix, Family}

pub data PoolProblem : Type 0 where
  pool_unset pool_malformed pool_wrong_family pool_host_bits pool_length : PoolProblem
  pool_reserved : Prefix → PoolProblem

pub data Timeout : Type 0 where
  read_timeout write_timeout idle_timeout shutdown_timeout : Timeout

pub data Problem : Type 0 where
  environment_unset environment_invalid : Problem
  listen_unset listen_malformed listen_no_port : Problem
  base_url_unset base_url_malformed base_url_scheme base_url_no_host base_url_insecure : Problem
  timeout_not_positive : Timeout → Problem
  max_body_bytes_not_positive : Problem
  path_unset dsn_unset driver_unset driver_unsupported : Problem
  max_open_conns_not_positive max_idle_conns_negative max_idle_conns_exceed : Problem
  conn_max_lifetime_negative : Problem
  pool_problem : Family → PoolProblem → Problem
  pools_overlap : Problem
  providers_unset session_lifetime_not_positive session_idle_negative session_idle_exceeds : Problem
  min_password_too_low : Problem
  provider_unsupported provider_twice : Text → Problem
  log_level_unknown log_format_unknown : Problem
  requests_not_positive burst_not_positive auth_requests_not_positive auth_burst_not_positive :
      Problem
  auth_requests_exceed : Problem

pub record Parsers : Type 0 where
  -- net.SplitHostPort: the host and the port
  pub split_host_port : Text → Option (Text × Text)
  -- url.Parse: the scheme and the host
  pub parse_url : Text → Option (Text × Text)
  -- netip.ParsePrefix
  pub parse_prefix : Text → Option Prefix
