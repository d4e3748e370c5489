-- ===== src/Collectors/Http/Laws.antt =====
-- Where an answer of a provider comes from.
use mathlib.Core.Option.{some-injective}
use cyber_threat_intelligenc.Prelude.{
  ℕ, zero, suc, ◌+◌, ◌*◌, ◌≤◌, ◌<◌, ◌≡◌, refl, ◌∙◌, Bool, Option, none, some, arith, Bool-cases,
  inl, inr,
}
use cyber_threat_intelligenc.Security.Throttle.{second}
use cyber_threat_intelligenc.Resilience.Breaker.{
  CircuitBreaker, Outcome, returned, raised, cancelled, done, call,
}
use cyber_threat_intelligenc.Resilience.Retry.{retry_loop, async_retry}
use cyber_threat_intelligenc.Collectors.Http.{
  HttpError, Response, Failure, is_transport, of_response, of_request, do_request, get_json,
}

module _ {A E : Type 0} (outcome : ℕ → Outcome A E) (catches : E → Bool) (max_delay : ℕ) where
  -- What the retried function returned is what one of its attempts returned.
  loop_returned :
      (left attempt delay : ℕ) (last : Option E) (a : A) (o : Outcome A E)
      → outcome attempt ≡ o
      → (retry_loop outcome catches max_delay left attempt delay last).0 ≡ some (returned a)
      → (n : ℕ) × (attempt ≤ n) × (n < attempt + left) × (outcome n ≡ returned a)
  unfolding retry_loop
  loop_returned zero attempt delay none a o e h = cc
  loop_returned zero attempt delay (some x) a o e h = cc
  loop_returned (suc left) attempt delay last a (returned b) e h =
      let same : some (returned b) ≡ some (returned a) = rw (e, retry_loop) at h in
      (attempt, omega arith, omega arith, e ∙ some-injective _ _ same)
  loop_returned (suc left) attempt delay last a cancelled e h =
      absurd (cc (rw (e, retry_loop) at h))
  loop_returned (suc zero) attempt delay last a (raised x) e h =
      absurd (ground (arith, rw (e, retry_loop) at h))
  loop_returned (suc (suc left)) attempt delay last a (raised x) e h =
      elim (Bool-cases (catches x)) [
        | inr other ↦ absurd (ground (arith, other, rw (e, retry_loop) at h))
        | inl caught ↦
            let rest : (retry_loop outcome catches max_delay (suc left) (attempt + 1) (delay * 2)
                  (some x)).0
                ≡ some (returned a) =
              rw caught at (rw (e, retry_loop) at h) in
            let (n, lo, hi, found) =
              loop_returned (suc left) (attempt + 1) (delay * 2) (some x) a (outcome (attempt + 1))
                refl rest in
            (n, omega (arith, lo), omega (arith, hi), found)
      ]

module _ {A : Type 0} where
  of_response-returned :
      (r : Response A) (a : A)
      → of_response r ≡ returned a
      → (r.status_code < 400) × (r.json ≡ some a)
  of_response-returned r a h = ground (arith, h)

  of_request-returned :
      (o : Option (Outcome (Response A) HttpError)) (a : A)
      → of_request o ≡ returned a
      → (r : Response A) × (o ≡ some (returned r)) × (of_response r ≡ returned a)
  of_request-returned none a h = cc
  of_request-returned (some (returned r)) a h = (r, refl, h)
  of_request-returned (some (raised HttpError.transport_error)) a h = cc
  of_request-returned (some (raised HttpError.other_error)) a h = cc
  of_request-returned (some cancelled) a h = cc

  call_done :
      (now later : ℕ) (o : Outcome A Failure) (a : A) (b : CircuitBreaker)
      → (call now later o b).0 ≡ done (returned a)
      → o ≡ returned a
  unfolding call
  call_done now later o a b h = ground (arith, h)

  -- When `get_json` returns an answer, whatever the provider and the circuit do, that is the body of
  -- the response to one of at most three requests, whose status is below 400.
  pub get_json_sound :
      (now later : ℕ) (outcome : ℕ → Outcome (Response A) HttpError) (b : CircuitBreaker) (a : A)
      → (get_json now later outcome b).0 ≡ done (returned a)
      → (n : ℕ) × (r : Response A) × (1 ≤ n)
        × (n ≤ 3)
        × (outcome n ≡ returned r)
        × (r.status_code < 400)
        × (r.json ≡ some a)
  unfolding get_json do_request async_retry
  get_json_sound now later outcome b a h =
      let answered = call_done now later (do_request outcome) a b h in
      let (r, given, body) = of_request-returned _ a answered in
      let (n, lo, hi, found) =
        loop_returned outcome is_transport (5 * second) 3 1 200000 none r (outcome 1) refl given in
      let (below, json) = of_response-returned r a body in
      (n, r, lo, omega (arith, hi), found, below, json)
