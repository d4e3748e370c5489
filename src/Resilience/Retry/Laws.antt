-- ===== src/Resilience/Retry/Laws.antt =====
-- What the wrapper of `async_retry` returns and how long it sleeps, whatever `func` does.
use cyber_threat_intelligenc.Prelude.{
  ℕ, zero, suc, ◌+◌, ◌*◌, ◌≤◌, ◌<◌, ◌≡◌, refl, Bool, true, false, Option, none, some, List, [], ◌∷◌,
  min, arith, All,
}
use cyber_threat_intelligenc.Resilience.Breaker.{Outcome, returned, raised, cancelled}
use cyber_threat_intelligenc.Resilience.Retry.{Retried, retry_loop, async_retry}

module _ {A E : Type 0} (catches : E → Bool) where
  -- The attempt ended in an exception that is retried.
  abbrev pub IsRetried : Outcome A E → Type 0
  IsRetried (raised e) = catches e ≡ true
  IsRetried _ = ⊥

  abbrev pub IsFinal : Outcome A E → Type 0
  IsFinal (raised e) = catches e ≡ false
  IsFinal _ = Unit

-- The sleeps before `n` further attempts: doubled each time, and never above the cap.
abbrev pub backoff : ℕ → ℕ → ℕ → List ℕ
backoff max_delay zero delay = []
backoff max_delay (suc n) delay = min delay max_delay ∷ backoff max_delay n (delay * 2)

module _ {A E : Type 0} (outcome : ℕ → Outcome A E) (catches : E → Bool) (max_delay : ℕ) where
  -- The first `n` attempts from number `attempt` on are all retried.
  abbrev pub Retries : ℕ → ℕ → Type 0
  Retries attempt zero = Unit
  Retries attempt (suc n) = IsRetried catches (outcome attempt) × Retries (attempt + 1) n

  loop : ℕ → ℕ → ℕ → Option E → Retried A E
  loop = retry_loop outcome catches max_delay

  loop_stops :
      (left attempt delay : ℕ) (last : Option E) (o : Outcome A E)
      → outcome attempt ≡ o
      → IsFinal catches o
      → loop (suc left) attempt delay last ≡ (some o, [])
  unfolding loop retry_loop
  loop_stops left attempt delay last (returned a) e f = rw (e, retry_loop) refl
  loop_stops left attempt delay last (raised x) e f = ground arith
  loop_stops left attempt delay last cancelled e f = rw (e, retry_loop) refl

  loop_goes_on :
      (left attempt delay : ℕ) (last : Option E) (x : E)
      → outcome attempt ≡ raised x
      → catches x ≡ true
      → let rest = loop (suc left) (attempt + 1) (delay * 2) (some x) in
        loop (suc (suc left)) attempt delay last ≡ (rest.0, min delay max_delay ∷ rest.1)
  unfolding loop retry_loop
  loop_goes_on left attempt delay last x e f = ground arith

  IsRetried-raised :
      (o : Outcome A E) → IsRetried catches o → (x : E) × (o ≡ raised x) × (catches x ≡ true)
  IsRetried-raised (returned a) r = absurd r
  IsRetried-raised (raised x) r = (x, refl, r)
  IsRetried-raised cancelled r = absurd r

  loop-final :
      (n left attempt delay m : ℕ) (last : Option E) (o : Outcome A E)
      → Retries attempt n
      → m ≡ attempt + n
      → outcome m ≡ o
      → IsFinal catches o
      → n < left
      → loop left attempt delay last ≡ (some o, backoff max_delay n delay)
  loop-final n zero attempt delay m last o r i e f h = absurd (omega arith)
  loop-final zero (suc left) attempt delay m last o r i e f h =
      let same : m ≡ attempt = omega arith in loop_stops left attempt delay last o (rw (← same) e) f
  loop-final (suc n) (suc zero) attempt delay m last o r i e f h = absurd (omega arith)
  loop-final (suc n) (suc (suc left)) attempt delay m last o r i e f h =
      let (x, is_raised, caught) = IsRetried-raised (outcome attempt) r.0 in
      rw
        (
          loop_goes_on left attempt delay last x is_raised caught,
          loop-final n (suc left) (attempt + 1) (delay * 2) m (some x) o r.1 (omega arith) e f
              (omega arith),
        )
        refl

  loop-exhausted :
      (n attempt delay m : ℕ) (last : Option E)
      → Retries attempt (suc n)
      → m ≡ attempt + n
      → loop (suc n) attempt delay last ≡ (some (outcome m), backoff max_delay n delay)
  unfolding loop retry_loop
  loop-exhausted zero attempt delay m last r i =
      let same : m ≡ attempt = omega arith in
      let (x, is_raised, caught) = IsRetried-raised (outcome attempt) r.0 in
      rw (same, is_raised) (ground arith)
  loop-exhausted (suc n) attempt delay m last r i =
      let (x, is_raised, caught) = IsRetried-raised (outcome attempt) r.0 in
      rw
        (
          loop_goes_on n attempt delay last x is_raised caught,
          loop-exhausted n (attempt + 1) (delay * 2) m (some x) r.1 (omega arith),
        )
        refl

  -- The first attempt that ends otherwise than in a retried exception decides: after `n` retried
  -- ones its outcome is the result, no further attempt is made, and the sleeps are the backoff.
  pub async_retry-final :
      (n attempts base_delay : ℕ)
      → Retries 1 n
      → IsFinal catches (outcome (1 + n))
      → n < attempts
      → async_retry outcome catches max_delay attempts base_delay
        ≡ (some (outcome (1 + n)), backoff max_delay n base_delay)
  unfolding loop async_retry
  async_retry-final n attempts base_delay r f h =
      loop-final n attempts 1 base_delay (1 + n) none (outcome (1 + n)) r refl refl f h

  -- If every attempt is retried, the exception of the last one is raised, and there is one sleep
  -- fewer than attempts.
  pub async_retry-exhausted :
      (n base_delay : ℕ)
      → Retries 1 (suc n)
      → async_retry outcome catches max_delay (suc n) base_delay
        ≡ (some (outcome (1 + n)), backoff max_delay n base_delay)
  unfolding loop async_retry
  async_retry-exhausted n base_delay r = loop-exhausted n 1 base_delay (1 + n) none r refl

-- No sleep of the backoff is above the cap.
pub backoff-le : (max_delay n delay : ℕ) → All (λ d. d ≤ max_delay) (backoff max_delay n delay)
backoff-le max_delay zero delay = tt
backoff-le max_delay (suc n) delay = (omega arith, backoff-le max_delay n (delay * 2))
