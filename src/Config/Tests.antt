-- ===== src/Config/Tests.antt =====
-- Runs of the validation, on the default configuration.
use headnet.Base.{
  ℕ, ◌*◌, ◌+◌, ◌-◌, ◌^◌, ◌≤◌, ◌≡◌, refl, true, false, none, some, [], ◌∷◌, if◌then◌else◌,
}
use headnet.Base.Int.{pos}
use headnet.Text.{codes, eq, is_space, trim_left, trim_space}
use headnet.Platform.{Platform}
use headnet.Netip.{
  Addr, Prefix, ip4, contains, overlaps, next, has_addr, masked, pool_size, bit_len,
}
use headnet.Storage.{statement}
use headnet.Storage.Table.{any_row, select_rows}
use headnet.Network.{
  Allocator, new_allocator, last_addr, to_bytes, from_bytes, set_host_bits, allocate_from, attempts,
  taken_in, collect_taken, pick_candidate, free_addresses, free_from, nth, insert_allocation,
}
use headnet.Config.Problems.{
  Parsers, base_url_insecure, pool_problem, pool_host_bits, provider_twice,
}
use headnet.Config.Pools.{
  first_overlap, parse_pool, parse_ip6, validate_network, ip4_pool, ip6_pool, min_bits, max_bits,
}
use headnet.Config.{
  Config, validate_environment, validate_server, check_driver, validate_database, listed,
  check_providers, validate_auth, knows_level, knows_format, validate_log, validate_rate_limit,
  validate,
}
use headnet.Config.WellFormed.{IsWellFormed, validate-IsWellFormed}
use headnet.Config.Reserved.{in_any, build_allocator, build_allocator-pool_size}

program : Unit {0}
unfolding eq is_space trim_left trim_space contains overlaps next has_addr any_row select_rows
    statement new_allocator last_addr to_bytes from_bytes set_host_bits allocate_from attempts
    taken_in collect_taken pick_candidate free_addresses free_from nth insert_allocation
    first_overlap parse_pool parse_ip6 validate_network ip4_pool ip6_pool validate_environment
    validate_server check_driver validate_database listed check_providers validate_auth knows_level
    knows_format validate_log validate_rate_limit validate in_any build_allocator
program = tt

abbrev plain : Platform
plain = record {
  sha256 = λ t. t;
  decode_base64 = λ t. none;
  decode_raw_url = λ t. none;
  to_lower = λ c. c;
}

-- 100.100.0.0/16, cut to 8 addresses to keep the runs short
abbrev pool4 : Prefix
pool4 = record { addr = record { family = ip4; value = 100 * 2 ^ 24 + 100 * 2 ^ 16 }; bits = 29 }

-- Parsers that know the texts of the configuration below.
abbrev parsers : Parsers
parsers = record {
  split_host_port = λ t. some ([], codes "8080");
  parse_url = λ t. some (codes "http", codes "localhost");
  parse_prefix = λ t.
      if eq t (codes "pool")
      then some pool4
      else some (record pool4 { addr = record { family = ip4; value = 100 * 2 ^ 24 + 1 } });
}

abbrev second : ℕ
second = 1_000_000_000

-- Default, with the name of the pool in place of its text.
abbrev default : Config
default = record {
  environment = codes "development";
  server = record {
    listen = codes ":8080";
    base_url = codes "http://localhost:8080";
    allow_insecure_http = false;
    read_timeout = pos (15 * second);
    write_timeout = pos (30 * second);
    idle_timeout = pos (120 * second);
    shutdown_timeout = pos (20 * second);
    max_body_bytes = pos (2 ^ 20);
  };
  database = record {
    driver = codes "sqlite";
    path = codes "./data/headnet.db";
    dsn = [];
    max_open_conns = pos 25;
    max_idle_conns = pos 5;
    conn_max_lifetime = pos (1800 * second);
  };
  network = record { ipv4_cidr = codes "pool"; ipv6_cidr = [] };
  auth = record {
    providers = codes "local" ∷ [];
    session_lifetime = pos (30 * 24 * 3600 * second);
    session_idle_timeout = pos (7 * 24 * 3600 * second);
    min_password_length = pos 12;
  };
  log = record { level = codes "info"; format = codes "json" };
  rate_limit = record {
    enabled = true;
    requests_per_minute = pos 120;
    burst = pos 30;
    auth_requests_per_minute = pos 10;
    auth_burst = pos 5;
  };
}

main :
    (validate plain parsers default ≡ [])
    × (validate plain parsers (record default {
      environment = codes "production";
      network = record { ipv4_cidr = codes "other"; ipv6_cidr = [] };
      auth = record default.auth { providers = codes "local" ∷ codes "local" ∷ [] };
    })
        ≡ base_url_insecure ∷ pool_problem ip4 pool_host_bits ∷ provider_twice (codes "local") ∷ [])
unfolding program
main = (refl, refl)

validate-IsWellFormed_example : IsWellFormed parsers default
unfolding program
validate-IsWellFormed_example = validate-IsWellFormed plain parsers default refl

abbrev al : Allocator
al = new_allocator pool4 none

build_allocator-pool_size_example :
    (2 ^ (bit_len ip4 - max_bits ip4) ≤ pool_size pool4)
    × (pool_size pool4 ≤ 2 ^ (bit_len ip4 - min_bits ip4))
    × ((masked pool4).addr ≡ pool4.addr)
unfolding program
build_allocator-pool_size_example =
    build_allocator-pool_size parsers default.network ip4 {al = al} {pool = pool4} refl refl

abbrev first : Addr
first = record { family = ip4; value = 100 * 2 ^ 24 + 100 * 2 ^ 16 + 1 }
