-- ===== src/Tests/Resilience.antt =====
-- The circuit breaker and the retries at work.
use cyber_threat_intelligenc.Prelude.{ℕ, ◌≡◌, refl, String, true, false, arith}
use cyber_threat_intelligenc.Resilience.Breaker.{
  CircuitBreaker, opened, half_open, fresh, can_attempt, Outcome, returned, raised, done, call,
  settle, record_failure,
}
use cyber_threat_intelligenc.Resilience.Breaker.Laws.{IsSettled, probe_decides}
use cyber_threat_intelligenc.Resilience.Breaker.Interleaving.{
  World, Step, cancelled_last, cancelled_probe_wedges, Reach, here, next, enter, leave, start,
  IsConsistent, reachable-IsConsistent,
}

-- How a call may end.
abbrev timed_out : {A : Type 0} → Outcome A String
timed_out = raised "timeout"

abbrev seven : Outcome ℕ String
seven = returned 7

abbrev open_at_10 : CircuitBreaker
open_at_10 = record (fresh 2 30) { state = opened; failures = 2; opened_at = 10 }

abbrev half : CircuitBreaker
half = record (fresh 2 30) {
  state = half_open;
  failures = 2;
  opened_at = 10;
  probe_in_flight = true;
}

open_at_10-IsSettled : IsSettled open_at_10
open_at_10-IsSettled = record {
  no_probe = refl;
  closed_room = λ h. ground (arith, h);
  not_half = λ h. ground (arith, h);
}

probe_decides_example :
    (call 40 41 seven open_at_10 ≡ (done seven, record (fresh 2 30) { opened_at = 10 }))
    × ((call 40 41 (timed_out {A = ℕ}) open_at_10).1
        ≡ record open_at_10 { failures = 3; opened_at = 41 })
probe_decides_example = probe_decides 40 41 7 "timeout" open_at_10 refl (omega arith)

abbrev probing : World
probing = record {
  breaker = record (fresh 1 30) {
    state = half_open;
    failures = 1;
    opened_at = 6;
    probe_in_flight = true;
  };
  in_flight = 1;
}

-- A call fails, and the next after the timeout is a probe.
to_probing : Reach (start 1 30) probing
unfolding can_attempt settle record_failure
to_probing =
    next (next (next here (enter _ 5 refl)) (leave _ 0 6 (raised "timeout") refl)) (enter _ 40 refl)

reachable-IsConsistent_example : IsConsistent probing.breaker
reachable-IsConsistent_example = reachable-IsConsistent 1 30 (omega arith) to_probing

-- The probe is cancelled at 41; at 5000 no call is let through.
cancelled_probe_wedges_example :
    Step probing (cancelled_last 41 probing)
    × (cancelled_last 41 probing ≡ cancelled_last 41 probing)
    × (can_attempt 5000 (cancelled_last 41 probing).breaker
        ≡ (false, (cancelled_last 41 probing).breaker))
cancelled_probe_wedges_example =
    cancelled_probe_wedges 1 30 41 5000 (omega arith) to_probing refl refl here
