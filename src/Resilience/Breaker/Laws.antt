-- ===== src/Resilience/Breaker/Laws.antt =====
-- `CircuitBreaker` used by one caller at a time.
use cyber_threat_intelligenc.Prelude.{
  ℕ, ◌+◌, ◌≤◌, ◌<◌, ◌≡◌, ◌≢◌, false, List, [], ◌∷◌, map, arith, length,
}
use cyber_threat_intelligenc.Resilience.Breaker.{
  CircuitBreaker, closed, opened, half_open, Outcome, returned, raised, cancelled, CallResult,
  refused, done, call,
}

-- What holds between two calls: the circuit is closed with room for a failure, or open.
pub record IsSettled (b : CircuitBreaker) : Type 0 where
  pub no_probe : b.probe_in_flight ≡ false
  pub closed_room : b.state ≡ closed → b.failures < b.failure_threshold
  pub not_half : b.state ≢ half_open

module _ {A E : Type 0} where
  -- The task was not cancelled.
  abbrev pub HasEnded : Outcome A E → Type 0
  HasEnded cancelled = ⊥
  HasEnded _ = Unit

  -- A call whose task is not cancelled leaves a settled breaker settled, and keeps its limits.
  pub call-IsSettled :
      (now later : ℕ) (o : Outcome A E) (b : CircuitBreaker)
      → 0 < b.failure_threshold
      → HasEnded o
      → IsSettled b
      → IsSettled (call now later o b).1
        × ((call now later o b).1.failure_threshold ≡ b.failure_threshold)
        × ((call now later o b).1.recovery_timeout ≡ b.recovery_timeout)
  unfolding call
  call-IsSettled now later (returned a) b pos e s = ground (arith, s.not_half, s.closed_room)
  call-IsSettled now later (raised x) b pos e s = ground (arith, s.not_half, s.closed_room)
  call-IsSettled now later cancelled b pos e s = absurd e

  -- An open circuit fails fast: `func` is not run and nothing changes before the timeout.
  pub call-refused :
      (now later : ℕ) (o : Outcome A E) (b : CircuitBreaker)
      → b.state ≡ opened
      → now < b.opened_at + b.recovery_timeout
      → call now later o b ≡ (refused, b)
  unfolding call
  call-refused now later o b e h = ground arith

  -- A settled breaker never stays shut: once the timeout has passed, `func` is run.
  pub call-admitted :
      (now later : ℕ) (o : Outcome A E) (b : CircuitBreaker)
      → IsSettled b
      → b.opened_at + b.recovery_timeout ≤ now
      → (call now later o b).0 ≡ done o
  unfolding call
  call-admitted now later o b s h = ground (arith, s.not_half)

  -- The probe after the timeout: a success closes the circuit and forgets the failures, a failure
  -- opens it anew from the moment of the failure.
  pub probe_decides :
      (now later : ℕ) (a : A) (x : E) (b : CircuitBreaker)
      → b.state ≡ opened
      → b.opened_at + b.recovery_timeout ≤ now
      → (call {E = E} now later (returned a) b
          ≡ (done (returned a), record b { failures = 0; state = closed; probe_in_flight = false }))
        × ((call {A = A} now later (raised x) b).1 ≡ record b {
          failures = b.failures + 1;
          probe_in_flight = false;
          state = opened;
          opened_at = later;
        })
  unfolding call
  probe_decides now later a x b e h = ground arith

-- Calls one after the other, each with its two readings of the clock and how `func` ends.
abbrev pub Calls : Type 0 → Type 0 → Type 0
Calls A E = List (ℕ × ℕ × Outcome A E)

module _ {A E : Type 0} where
  unfoldable pub run : Calls A E → CircuitBreaker → List (CallResult A E) × CircuitBreaker
  run [] b = ([], b)
  run ((now, later, o) ∷ calls) b =
      let (r, b') = call now later o b in let (rs, last) = run calls b' in (r ∷ rs, last)

module _ {E : Type 0} where
  -- Failing calls, by their readings of the clock.
  abbrev pub failing : List (ℕ × ℕ × E) → Calls (Unit {0}) E
  failing = map (λ (now, later, x). (now, later, raised x))

  run_below :
      (xs : List (ℕ × ℕ × E)) (b : CircuitBreaker)
      → b.state ≡ closed
      → b.failures + length xs < b.failure_threshold
      → ((run (failing xs) b).1.state ≡ closed)
        × ((run (failing xs) b).1.failures ≡ b.failures + length xs)
        × ((run (failing xs) b).1.failure_threshold ≡ b.failure_threshold)
        × ((run (failing xs) b).1.recovery_timeout ≡ b.recovery_timeout)
  unfolding run call
  run_below [] b e h = ground arith
  run_below ((now, later, x) ∷ xs) b e h =
      ground (arith, run_below xs (call {0, 0} {A = Unit} now later (raised x) b).1)

  opens :
      (now later : ℕ) (x : E) (b : CircuitBreaker)
      → b.state ≡ closed
      → b.failure_threshold ≤ b.failures + 1
      → let b' = (call {A = Unit {0}} now later (raised x) b).1 in
        (b'.state ≡ opened) × (b'.opened_at ≡ later) × (b'.recovery_timeout ≡ b.recovery_timeout)
  unfolding call
  opens now later x b e h = ground arith

  -- From a closed circuit with no failure counted, as many failing calls in a row as the threshold
  -- says open the circuit, and a next call before the timeout is then refused with nothing changed.
  pub trips :
      (xs : List (ℕ × ℕ × E)) (now later now' later' : ℕ) (x : E) (o : Outcome (Unit {0}) E)
      (b : CircuitBreaker)
      → b.state ≡ closed
      → b.failures ≡ 0
      → b.failure_threshold ≡ length xs + 1
      → now' < later + b.recovery_timeout
      → let b' = (call {A = Unit {0}} now later (raised x) (run (failing xs) b).1).1 in
        (b'.state ≡ opened) × (call now' later' o b' ≡ (refused, b'))
  trips xs now later now' later' x o b e none_yet full h =
      let below = run_below xs b e (omega arith) in
      let opening = opens now later x (run (failing xs) b).1 below.0 (omega (arith, below)) in
      (opening.0, call-refused now' later' o _ opening.0 (omega (arith, h, opening, below)))
