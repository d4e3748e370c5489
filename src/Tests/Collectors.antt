-- ===== src/Tests/Collectors.antt =====
-- A provider's client at work.
use cyber_threat_intelligenc.Prelude.Text.{codes}
use cyber_threat_intelligenc.Collectors.Samples.{sample_for}
use cyber_threat_intelligenc.Collectors.Factory.{Answers, CollectorPolicy, Collector, otx, collect}
use cyber_threat_intelligenc.Collectors.Factory.Laws.{collect_bounds}
use cyber_threat_intelligenc.Prelude.{
  [], length, false, ℕ, ◌≡◌, ◌≤◌, ◌<◌, refl, String, none, some, arith, leb, if◌then◌else◌,
}
use cyber_threat_intelligenc.Resilience.Breaker.{
  CircuitBreaker, fresh, call, can_attempt, Outcome, returned, raised,
}
use cyber_threat_intelligenc.Collectors.Http.{
  HttpError, transport_error, Response, do_request, get_json,
}
use cyber_threat_intelligenc.Resilience.Retry.{async_retry}
use cyber_threat_intelligenc.Collectors.Http.Laws.{get_json_sound}

abbrev silent : Answers
silent = record {
  abuse = none;
  urls = none;
  samples = none;
  pulses = none;
  vulnerabilities = none;
  feeds = some [];
}

-- Live collection is off, and a key is configured.
abbrev off : CollectorPolicy
off = record { enable_live_collectors = false; provider_key = λ name. codes "key" }

abbrev collector : Collector
collector = record { source = otx; api_key = codes "key" }

collect_bounds_example :
    (length (collect off collector 1 silent) ≤ 1)
    × (off.enable_live_collectors ≡ false → collect off collector 1 silent ≡ sample_for "otx" 1)
collect_bounds_example = collect_bounds off collector 1 silent (omega arith)

abbrev found : Response String
found = record { status_code = 200; json = some "report" }

-- The first request does not get through.
abbrev flaky : ℕ → Outcome (Response String) HttpError
flaky n = if leb 2 n then returned found else raised transport_error

abbrev breaker : CircuitBreaker
breaker = record (fresh 5 30) { failures = 4 }

get_json_sound_example :
    (n : ℕ) × (r : Response String) × (1 ≤ n)
    × (n ≤ 3)
    × (flaky n ≡ returned r)
    × (r.status_code < 400)
    × (r.json ≡ some "report")
unfolding get_json do_request async_retry call can_attempt
get_json_sound_example = get_json_sound 1 2 flaky breaker "report" refl
