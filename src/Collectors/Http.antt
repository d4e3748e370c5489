-- ===== src/Collectors/Http.antt =====
-- `ProviderHttpClient` of app/collectors/http.py. The library httpx is a parameter: `outcome n` is
-- how the n-th request of a call ends.
pub mod Laws
use cyber_threat_intelligenc.Prelude.{
  ℕ, ◌*◌, Bool, true, false, Option, none, some, leb, if◌then◌else◌,
}
use cyber_threat_intelligenc.Security.Throttle.{second}
use cyber_threat_intelligenc.Resilience.Breaker.{
  CircuitBreaker, Outcome, returned, raised, cancelled, CallResult, call,
}
use cyber_threat_intelligenc.Resilience.Retry.{async_retry}

-- `httpx.TransportError`, or any other exception of a request.
pub data HttpError : Type 0 where
  transport_error other_error : HttpError

-- `json` is `none` if reading the body as JSON raises.
pub record Response (A : Type 0) : Type 0 where
  pub status_code : ℕ
  pub json : Option A

-- The exceptions that `_do` raises: its own two, those of httpx, and that of a body that is no JSON.
pub data Failure : Type 0 where
  unavailable http_error no_json assertion_error : Failure
  collector_error : ℕ → Failure

abbrev pub is_transport : HttpError → Bool
is_transport transport_error = true
is_transport other_error = false

module _ {A : Type 0} where
  abbrev pub body_of : Option A → Outcome A Failure
  body_of none = raised no_json
  body_of (some body) = returned body

  abbrev pub of_response : Response A → Outcome A Failure
  of_response r =
      if leb 500 r.status_code
      then raised unavailable
      else if leb 400 r.status_code
      then raised (collector_error r.status_code)
      else body_of r.json

  abbrev pub of_request : Option (Outcome (Response A) HttpError) → Outcome A Failure
  of_request none = raised assertion_error
  of_request (some (returned r)) = of_response r
  of_request (some (raised transport_error)) = raised unavailable
  of_request (some (raised other_error)) = raised http_error
  of_request (some cancelled) = cancelled

  -- `_do`, with the defaults of `async_retry` for what `_request` does not set.
  unfoldable pub do_request : (ℕ → Outcome (Response A) HttpError) → Outcome A Failure
  do_request outcome = of_request (async_retry outcome is_transport (5 * second) 3 200000).0

  -- Entered at `now`, the requests over at `later`.
  unfoldable pub get_json :
      ℕ
      → ℕ
      → (ℕ → Outcome (Response A) HttpError)
      → CircuitBreaker
      → CallResult A Failure × CircuitBreaker
  unfolding do_request
  get_json now later outcome breaker = call now later (do_request outcome) breaker
