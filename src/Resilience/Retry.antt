-- ===== src/Resilience/Retry.antt =====
-- `async_retry` of app/core/resilience.py.
pub mod Laws
use cyber_threat_intelligenc.Prelude.{
  ℕ, zero, suc, ◌+◌, ◌*◌, Bool, true, false, Option, none, some, List, [], ◌∷◌, min, leb,
  if◌then◌else◌,
}
use cyber_threat_intelligenc.Resilience.Breaker.{Outcome, returned, raised, cancelled}

-- `none` stands for the assertion error of `assert last_exc is not None`.
abbrev pub Retried {ℓ κ} : Type ℓ → Type κ → Type (ℓ ⊔ κ)
Retried A E = Option (Outcome A E) × List ℕ

module _ {A E : Type 0} (outcome : ℕ → Outcome A E) (catches : E → Bool) (max_delay : ℕ) where
  -- The `for` loop: `left` attempts from number `attempt` on, `last` the exception caught last.
  -- The second part of the result is what was slept, in order.
  unfoldable pub retry_loop : ℕ → ℕ → ℕ → Option E → Retried A E
  retry_loop zero attempt delay none = (none, [])
  retry_loop zero attempt delay (some e) = (some (raised e), [])
  retry_loop (suc left) attempt delay last = elim (outcome attempt) [
    | returned a ↦ (some (returned a), [])
    | cancelled ↦ (some cancelled, [])
    | raised e ↦
        let rest = retry_loop left (attempt + 1) (delay * 2) (some e) in
        if catches e
        then elim left [
          | zero ↦ (some (raised e), [])
          | suc n ↦ (rest.0, min delay max_delay ∷ rest.1)
        ]
        else (some (raised e), [])
  ]

  -- The wrapper that `async_retry` makes; `outcome n` is how the n-th call of `func` ends.
  unfoldable pub async_retry : ℕ → ℕ → Retried A E
  unfolding retry_loop
  async_retry attempts base_delay = retry_loop attempts 1 base_delay none
