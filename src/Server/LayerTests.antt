-- ===== src/Server/LayerTests.antt =====
-- Runs of the middleware.
use headnet.Base.{ℕ, suc, ◌/◌, ◌≡◌, refl, ◌⊎◌, true, false, none, [], ◌∷◌}
use headnet.Base.Int.{pos, pos_part}
use headnet.Text.{Text, codes, eq, decimal, digits_from}
use headnet.Api.{http_status, not_found}
use headnet.RateLimit.{
  Limiter, allow, elapsed, lookup_bucket, store_bucket, keep_recent, sweep, new_limiter, is_off,
  refill, wait_for, spend_token, decide,
}
use headnet.RateLimit.Tests.{whole as numbers, fresh}
use headnet.Server.{error_reply}
use headnet.Server.Middleware.{
  set_header, get_header, WireRequest, Answer, answered, panicked, other_panic, WireHandler,
  with_request_id, recoverer, security_headers, max_body_bytes, NetPackages, client_ip, rate_limit,
  build_handler, chain,
}
use headnet.Server.Layers.{said, IsRefusal, IsServed, build_handler-IsServed}
use headnet.Server.Recorder.{
  write_header, write, new_recorder, record_header, record_write, record_call, record_calls,
  sent_status, record_level, error_level, record_calls-sent_status,
}

program : Unit {0}
unfolding eq decimal digits_from http_status elapsed lookup_bucket store_bucket keep_recent sweep
    new_limiter is_off refill wait_for spend_token decide allow set_header get_header
    with_request_id recoverer security_headers max_body_bytes client_ip rate_limit build_handler
    chain record_header record_write record_call record_calls sent_status record_level
program = tt

abbrev plain : NetPackages
plain = record { split_host = λ t. none; whole_seconds = λ d. pos (pos_part d / 1000000000) }

abbrev arrival : WireRequest
arrival = record {
  remote_addr = codes "10.0.0.1";
  request_id = [];
  has_body = true;
  body_limit = none;
  received_at = 5000000000;
}

-- Routes that count the requests they get.
abbrev counting : WireHandler (Limiter ℕ × ℕ)
counting r h (l, n) = (answered h r.request_id (error_reply not_found []), (l, suc n))

-- Routes that panic.
abbrev failing : WireHandler (Limiter ℕ × ℕ)
failing r h (l, n) = (panicked h other_panic, (l, n))

abbrev status_of : Answer → ℕ
status_of (answered h id response) = response.status
status_of (panicked h p) = 0

abbrev id_of : Answer → Text
id_of (answered h id response) = id
id_of (panicked h p) = []

abbrev serve_once : Limiter ℕ × ℕ → Answer × (Limiter ℕ × ℕ)
serve_once state =
    build_handler numbers plain true true (pos 100) (codes "req_1") counting arrival [] state

-- The burst is two.
abbrev third : Answer × (Limiter ℕ × ℕ)
third = serve_once (serve_once (serve_once (fresh, 0)).1).1

main :
    (status_of third.0 ≡ 429)
    × (third.1.1 ≡ 2)
    × (status_of
          (build_handler numbers plain true true
            (pos 100)
            (codes "req_1")
            failing
            arrival
            []
            (fresh, 0)).0
        ≡ 500)
    × (id_of
          (build_handler numbers plain true true
            (pos 100)
            (codes "req_1")
            failing
            arrival
            []
            (fresh, 0)).0
        ≡ [])
    × ((record_calls (write_header 404 ∷ write [] 3 ∷ write_header 500 ∷ []) new_recorder).written
        ≡ 3)
    × ((record_calls (write_header 103 ∷ write_header 404 ∷ []) new_recorder).status ≡ 103)
    × (record_level 503 ≡ error_level)
unfolding program
main = (refl, refl, refl, refl, refl, refl, refl)

build_handler-IsServed_example :
    (((said numbers plain true (pos 100) (codes "req_1") counting arrival [] fresh 0).0.allowed
        ≡ false)
      × IsRefusal numbers plain true (pos 100) (codes "req_1") counting arrival [] fresh 0)
    ⊎ (((said numbers plain true (pos 100) (codes "req_1") counting arrival [] fresh 0).0.allowed
          ≡ true)
        × IsServed numbers plain true (pos 100) (codes "req_1") counting arrival [] fresh 0)
build_handler-IsServed_example =
    build_handler-IsServed numbers plain true (pos 100) (codes "req_1") counting arrival [] fresh 0

record_calls-sent_status_example :
    ((record_calls (write_header 404 ∷ write [] 3 ∷ []) new_recorder).status ≡ 404)
    × (sent_status (record_calls (write_header 404 ∷ write [] 3 ∷ []) new_recorder).passed_on ≡ 404)
unfolding program
record_calls-sent_status_example =
    record_calls-sent_status (write_header 404 ∷ write [] 3 ∷ []) (refl, (refl, tt))
