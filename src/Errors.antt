-- ===== src/Errors.antt =====
-- The exception hierarchy of app/core/exceptions.py, results that carry such an exception, and the
-- monad of methods that change a state and may raise.
use cyber_threat_intelligenc.Prelude.{
  ℕ, String, Bool, true, false, ◌≡◌, ◌⊎◌, inl, inr, refl, if◌then◌else◌,
}

-- One constructor for each class; the arguments are what callers or handlers look at.
pub data AppError : Type 0 where
  authentication_error : String → AppError
  invalid_token : String → AppError
  invalid_api_key : AppError
  permission_denied : String → AppError
  account_locked : ℕ → AppError
  not_found : String → AppError
  conflict : String → AppError
  validation_error : String → AppError
  rate_limited : AppError
  encryption_error : String → AppError
  ssrf_blocked : String → AppError
  collector_error : ℕ → AppError
  collector_unavailable : AppError
  live_collectors_disabled : AppError
  unknown_indicator : AppError
  circuit_open : AppError

-- The class attribute `status_code`, inherited where the class does not set it.
unfoldable pub status_code : AppError → ℕ
status_code (authentication_error _) = 401
status_code (invalid_token _) = 401
status_code invalid_api_key = 401
status_code (permission_denied _) = 403
status_code (account_locked _) = 429
status_code (not_found _) = 404
status_code (conflict _) = 409
status_code (validation_error _) = 422
status_code rate_limited = 429
status_code (encryption_error _) = 500
status_code (ssrf_blocked _) = 400
status_code (collector_error _) = 502
status_code collector_unavailable = 503
status_code live_collectors_disabled = 409
status_code unknown_indicator = 422
status_code circuit_open = 503

pub data Result {ℓ} (A : Type ℓ) : Type ℓ where
  ok : A → Result A
  err : AppError → Result A

-- An exception that is one of the platform's, or one that a library raises.
pub data Exception : Type 0 where
  app_error : AppError → Exception
  value_error type_error csv_error : Exception

pub data Attempt {ℓ} (A : Type ℓ) : Type ℓ where
  returned : A → Attempt A
  thrown : Exception → Attempt A

-- What was written before a raise stays written, so the state comes back beside the error too.
abbrev pub Exec {ℓ} : Type ℓ → Type ℓ → Type ℓ
Exec S A = S → Result A × S

module _ {ℓ} {S A : Type ℓ} where
  abbrev pub pure : A → Exec S A
  pure a s = (ok a, s)

  abbrev pub raise : AppError → Exec S A
  raise e s = (err e, s)

  abbrev pub lift : Result A → Exec S A
  lift r s = (r, s)

  abbrev pub gets : (S → A) → Exec S A
  gets f s = (ok (f s), s)

abbrev pub modify : {S : Type 0} → (S → S) → Exec S (Unit {0})
modify f s = (ok tt, f s)

abbrev pub raise_if : {S : Type 0} → Bool → AppError → Exec S (Unit {0})
raise_if b e s = (if b then err e else ok tt, s)

module _ {ℓ} {S A B : Type ℓ} where
  abbrev pub continue : Result A → (A → Exec S B) → Exec S B
  continue (ok a) f s = f a s
  continue (err e) f s = (err e, s)

  infixl 10 ◌>>=◌ ◌>>◌
  abbrev pub ◌>>=◌ : Exec S A → (A → Exec S B) → Exec S B
  ◌>>=◌ m f s = let (r, s') = m s in continue r f s'

  abbrev pub ◌>>◌ : Exec S A → Exec S B → Exec S B
  m >> n = m >>= λ _. n

abbrev pub is_ok {ℓ} : {A : Type ℓ} → Result A → Bool
is_ok (ok _) = true
is_ok (err _) = false

pub Result-cases {ℓ} :
    {A : Type ℓ} (r : Result A) → ((a : A) × (r ≡ ok a)) ⊎ ((e : AppError) × (r ≡ err e))
Result-cases (ok a) = inl (a, refl)
Result-cases (err e) = inr (e, refl)

pub Attempt-cases {ℓ} :
    {A : Type ℓ} (r : Attempt A) → ((a : A) × (r ≡ returned a)) ⊎ ((e : Exception) × (r ≡ thrown e))
Attempt-cases (returned a) = inl (a, refl)
Attempt-cases (thrown e) = inr (e, refl)
