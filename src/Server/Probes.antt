-- ===== src/Server/Probes.antt =====
-- internal/server/routes.go: the probes, and the version and negotiation endpoints. What the
-- build says of itself, the embedded migrations and the readings of the clock are arguments.
use headnet.Base.{ℕ, suc, ◌-◌, ◌/◌, Bool, not, List, [], ◌∷◌, ◌++◌, ltb, ◌==◌, if◌then◌else◌}
use headnet.Base.Int.{ℤ, pos, negsuc, int_leb}
use headnet.Text.{Text, codes}
use headnet.Storage.{Result, ok, err, World, statement, no_change}
use headnet.Storage.Migrations.{last_version, Migration, Entry, load_migrations, schema_version}
use headnet.Platform.{Platform}
use headnet.Protocol.{
  Range, agreed, refused as not_agreed, Outcome, negotiate, new_set, parse_capabilities,
  sorted_names, supported, local_range, newest_version, oldest_version, print_int, refusal_text,
}
use headnet.RateLimit.{elapsed}
use headnet.Api.{bad_request, unsupported_protocol, not_found, not_implemented}
use headnet.Api.Health.{
  HealthStatus, status_ok, status_degraded, status_down, worse, Check, HealthResponse,
  NegotiateRequest,
}
use headnet.Server.{
  Response, Input, refused, decoded, error_reply, with_details, json, says, health_body,
  version_body, negotiated_body,
}

-- version.Get
pub record Build : Type 0 where
  pub version : Text
  pub commit : Text
  pub build_date : Text

pub record Process : Type 0 where
  pub platform : Platform
  pub build : Build
  pub started_at : ℕ
  pub metrics_enabled : Bool
  -- The embedded migrations of the database driver.
  pub embedded : List Entry
  -- int64(d.Seconds())
  pub whole_seconds : ℤ → ℤ

-- The readings of the clock that a probe takes: before the check, after it, and for the uptime.
pub record Readings : Type 0 where
  pub before : ℕ
  pub after : ℕ
  pub now : ℕ

-- Duration.Milliseconds
abbrev pub milliseconds : ℤ → ℤ
milliseconds (pos n) = pos (n / 1000000)
milliseconds (negsuc n) = if ltb (suc n) 1000000 then pos 0 else negsuc (suc n / 1000000 - 1)

abbrev pub uptime : Process → ℕ → ℤ
uptime p now = p.whole_seconds (elapsed now p.started_at)

abbrev pub database_check : Readings → HealthStatus → Text → Check
database_check t status detail = record {
  name = codes "database";
  status = status;
  detail = detail;
  duration_ms = milliseconds (elapsed t.after t.before);
}

abbrev pub unreachable : Text
unreachable = codes "the database is not reachable"

abbrev pub unreadable : Text
unreadable = codes "the schema version could not be read"

abbrev pub no_migrations : Text
no_migrations = codes "the embedded migrations could not be read"

abbrev pub behind : Text
behind =
    codes
      "the database schema is not at the version this build expects; run the server once to migrate"

-- checkDatabase, with what LoadMigrations returned.
unfoldable pub compare_versions : Readings → ℕ → Result (List Migration) → Check
unfolding last_version
compare_versions t applied (err e) = database_check t status_down no_migrations
compare_versions t applied (ok []) = database_check t status_down no_migrations
compare_versions t applied (ok (m ∷ ms)) =
    if not (applied == last_version m ms)
    then database_check t status_degraded behind
    else database_check t status_ok []

-- checkDatabase, with what SchemaVersion returned.
unfoldable pub check_version : Process → Readings → Result ℕ → World → Check × World
unfolding compare_versions load_migrations
check_version p t (err e) w = (database_check t status_down unreadable, w)
check_version p t (ok applied) w =
    (compare_versions t applied (load_migrations p.platform p.embedded), w)

-- checkDatabase, with the answer to the ping.
unfoldable pub check_reachable : Process → Readings → Result (Unit {0}) → World → Check × World
unfolding check_version schema_version
check_reachable p t (err e) w = (database_check t status_down unreachable, w)
check_reachable p t (ok u) w = let (applied, w') = schema_version w in check_version p t applied w'

-- checkDatabase; a ping reads nothing.
unfoldable pub check_database : Process → Readings → World → Check × World
unfolding check_reachable statement
check_database p t w = let (answer, w') = statement no_change w in check_reachable p t answer w'

unfoldable pub overall : HealthStatus → List Check → HealthStatus
unfolding worse
overall s [] = s
overall s (c ∷ checks) = overall (worse s c.status) checks

-- probe
unfoldable pub probe : Process → Readings → World → HealthResponse × World
unfolding check_database overall
probe p t w =
    let (check, w') = check_database p t w in
    let checks = check ∷ [] in
    (
      record {
        status = overall status_ok checks;
        version = p.build.version;
        uptime_seconds = uptime p t.now;
        checks = checks;
      },
      w',
    )

abbrev pub probe_status : HealthStatus → ℕ
probe_status status_down = 503
probe_status _ = 200

-- handleReady
unfoldable pub handle_ready : Process → Readings → World → Response × World
unfolding probe
handle_ready p t w =
    let (health, w') = probe p t w in (json (probe_status health.status) (health_body health), w')

-- handleHealth
unfoldable pub handle_health : Process → Readings → World → Response × World
unfolding probe
handle_health p t w =
    let (health, w') = probe p t w in (json (probe_status health.status) (health_body health), w')

-- handleLive
unfoldable pub handle_live : Process → Readings → Response
handle_live p t = json 200 (
    health_body (record {
      status = status_ok;
      version = p.build.version;
      uptime_seconds = uptime p t.now;
      checks = [];
    }))

-- httpapi.NotImplemented
abbrev pub not_built : Text → Text → Response
not_built feature phase =
    with_details not_implemented (says (feature ++ codes " is not implemented yet")) (
      (codes "roadmap_phase", phase)
      ∷ (codes "roadmap", codes "https://github.com/CauaMora1s/Headnet/blob/main/docs/ROADMAP.md")
      ∷ [])

-- handleMetrics
unfoldable pub handle_metrics : Process → Response
handle_metrics p =
    if not p.metrics_enabled
    then error_reply not_found (codes "the metrics endpoint is disabled")
    else not_built (codes "Prometheus metrics") (codes "Phase 12")

-- handleVersion
unfoldable pub handle_version : Process → Response
unfolding sorted_names new_set
handle_version p = json 200 (
    version_body (record {
      version = p.build.version;
      commit = p.build.commit;
      build_date = p.build.build_date;
      protocol_version = newest_version;
      min_protocol_version = oldest_version;
      capabilities = sorted_names (new_set supported);
    }))

abbrev pub field_error : Text → Text → Response
field_error message field = with_details bad_request (says message) ((codes "field", field) ∷ [])

abbrev pub negotiated : Process → Range → Outcome → Response
negotiated p remote (agreed version caps) = json 200 (
    negotiated_body (record {
      protocol_version = version;
      capabilities = sorted_names caps;
      server_version = p.build.version;
    }))
negotiated p remote (not_agreed e) =
    with_details unsupported_protocol (says (refusal_text e local_range remote))
      ((codes "server_protocol_version", print_int newest_version) ∷ [])

-- x <= 0
abbrev pub not_positive : ℤ → Bool
not_positive x = int_leb x (pos 0)

-- The range that a client speaks: one version only if it does not say how far it can go back.
abbrev pub client_range : NegotiateRequest → Range
client_range req = record {
  version = req.protocol_version;
  min_version =
      if not_positive req.min_protocol_version
      then req.protocol_version
      else req.min_protocol_version;
}

abbrev pub negotiate_for : Process → NegotiateRequest → Response
negotiate_for p req =
    if not_positive req.protocol_version
    then field_error (codes "protocol_version must be a positive integer")
        (codes "protocol_version")
    else if not (int_leb (client_range req).min_version req.protocol_version)
    then field_error (codes "min_protocol_version must not exceed protocol_version")
        (codes "min_protocol_version")
    else negotiated p (client_range req) (
        negotiate local_range (client_range req) (new_set supported)
          (parse_capabilities p.platform req.capabilities))

-- handleNegotiate
unfoldable pub handle_negotiate : Process → Input NegotiateRequest → Response
unfolding negotiate new_set parse_capabilities sorted_names refusal_text
handle_negotiate p (refused reply) = reply
handle_negotiate p (decoded req) = negotiate_for p req
