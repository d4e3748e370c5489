-- ===== src/Resilience/Breaker.antt =====
-- `CircuitBreaker` and the registry of app/core/resilience.py. A reading of the monotonic clock is
-- a number of ticks; timeouts are in the same ticks. The lock is held for one of the functions
-- below at a time, and `func` is awaited outside of it.
pub mod Laws
pub mod Interleaving
use cyber_threat_intelligenc.Prelude.{
  ℕ, ◌+◌, String, Bool, true, false, ◌||◌, Option, none, some, leb, if◌then◌else◌, string_eq,
}
use cyber_threat_intelligenc.Prelude.Dict.{Dict, lookup, insert}

pub data CircuitState : Type 0 where
  closed opened half_open : CircuitState

pub record CircuitBreaker : Type 0 where
  pub failure_threshold : ℕ
  pub recovery_timeout : ℕ
  pub state : CircuitState
  pub failures : ℕ
  pub opened_at : ℕ
  pub probe_in_flight : Bool

-- A new breaker, with the defaults of the fields that `__init__` does not take.
abbrev pub fresh : ℕ → ℕ → CircuitBreaker
fresh failure_threshold recovery_timeout = record {
  failure_threshold = failure_threshold;
  recovery_timeout = recovery_timeout;
  state = closed;
  failures = 0;
  opened_at = 0;
  probe_in_flight = false;
}

attempt_in : CircuitState → ℕ → CircuitBreaker → Bool × CircuitBreaker
attempt_in closed now b = (true, b)
attempt_in opened now b =
    if leb (b.opened_at + b.recovery_timeout) now
    then (true, record b { state = half_open; probe_in_flight = true })
    else (false, b)
attempt_in half_open now b =
    if b.probe_in_flight then (false, b) else (true, record b { probe_in_flight = true })

-- `now` is the clock at the call.
unfoldable pub can_attempt : ℕ → CircuitBreaker → Bool × CircuitBreaker
unfolding attempt_in
can_attempt now b = attempt_in b.state now b

unfoldable pub record_success : CircuitBreaker → CircuitBreaker
record_success b = record b { failures = 0; state = closed; probe_in_flight = false }

abbrev pub is_half_open : CircuitState → Bool
is_half_open closed = false
is_half_open opened = false
is_half_open half_open = true

unfoldable pub record_failure : ℕ → CircuitBreaker → CircuitBreaker
record_failure now b =
    if is_half_open b.state || leb b.failure_threshold (b.failures + 1)
    then record b {
      failures = b.failures + 1;
      probe_in_flight = false;
      state = opened;
      opened_at = now;
    }
    else record b { failures = b.failures + 1; probe_in_flight = false }

-- How awaiting `func` ends. A cancelled task raises `CancelledError`, which is no `Exception`.
pub data Outcome {ℓ κ} (A : Type ℓ) (E : Type κ) : Type (ℓ ⊔ κ) where
  returned : A → Outcome A E
  raised : E → Outcome A E
  cancelled : Outcome A E

pub data CallResult {ℓ κ} (A : Type ℓ) (E : Type κ) : Type (ℓ ⊔ κ) where
  refused : CallResult A E
  done : Outcome A E → CallResult A E

-- The second half of `call`, after `func` has ended.
unfoldable pub settle {ℓ κ} :
    {A : Type ℓ} {E : Type κ} → ℕ → Outcome A E → CircuitBreaker → CircuitBreaker
settle now (returned a) b = record_success b
settle now (raised e) b = record_failure now b
settle now cancelled b = b

-- `call` with no other call in between: entered at `now`, `func` ended at `later`.
unfoldable pub call {ℓ κ} :
    {A : Type ℓ} {E : Type κ}
    → ℕ
    → ℕ
    → Outcome A E
    → CircuitBreaker
    → CallResult A E × CircuitBreaker
unfolding can_attempt settle record_success record_failure
call now later outcome b =
    let (admitted, b') = can_attempt now b in
    if admitted then (done outcome, settle later outcome b') else (refused, b')

-- `get_circuit_breaker`. Two clients of one name share the breaker: it lives in the registry.
unfoldable pub get_circuit_breaker :
    String → ℕ → ℕ → Dict String CircuitBreaker → CircuitBreaker × Dict String CircuitBreaker
get_circuit_breaker name failure_threshold recovery_timeout breakers = elim (lookup name breakers) [
  | none ↦
      let breaker = fresh failure_threshold recovery_timeout in
      (breaker, insert name breaker breakers)
  | some breaker ↦ (breaker, breakers)
]
