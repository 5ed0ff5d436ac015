-- ===== src/Api/Health.antt =====
-- packages/api/types.go: the state of the server as its probes report it, and the bodies of the
-- version and negotiation requests.
use headnet.Base.{ℕ, List, ltb, if◌then◌else◌}
use headnet.Base.Int.{ℤ}
use headnet.Text.{Text}

-- HealthStatus, which is a string.
pub data HealthStatus : Type 0 where
  status_ok status_degraded status_down : HealthStatus
  other_status : Text → HealthStatus

-- The function rank of Worse.
unfoldable pub severity : HealthStatus → ℕ
severity status_ok = 0
severity status_degraded = 1
severity status_down = 2
severity (other_status text) = 3

-- HealthStatus.Worse
unfoldable pub worse : HealthStatus → HealthStatus → HealthStatus
unfolding severity
worse s other = if ltb (severity s) (severity other) then other else s

pub record Check : Type 0 where
  pub name : Text
  pub status : HealthStatus
  pub detail : Text
  pub duration_ms : ℤ

pub record HealthResponse : Type 0 where
  pub status : HealthStatus
  pub version : Text
  pub uptime_seconds : ℤ
  pub checks : List Check

pub record VersionResponse : Type 0 where
  pub version : Text
  pub commit : Text
  pub build_date : Text
  pub protocol_version : ℤ
  pub min_protocol_version : ℤ
  pub capabilities : List Text

pub record NegotiateRequest : Type 0 where
  pub protocol_version : ℤ
  pub min_protocol_version : ℤ
  pub capabilities : List Text
  pub client_version : Text

pub record NegotiateResponse : Type 0 where
  pub protocol_version : ℤ
  pub capabilities : List Text
  pub server_version : Text
