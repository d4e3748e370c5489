-- ===== src/Auth/Login.antt =====
-- Passwords and token pairs in `AuthService`, with the in-process throttle and token store. A
-- request reads each clock once: `wall` is `datetime.now(UTC)` and `mono` is `time.monotonic()`.
pub mod Failures
pub mod Rotation
use cyber_threat_intelligenc.Prelude.{
  ℕ, ◌-◌, ◌/◌, String, Bool, true, false, not, ◌||◌, Option, none, some, List, [], ◌∷◌, max,
  if◌then◌else◌,
}
use cyber_threat_intelligenc.Prelude.Text.{Text, lower}
use cyber_threat_intelligenc.Errors.{
  AppError, authentication_error, account_locked, Result, ok, err, Exec, pure, raise, lift, gets,
  raise_if, ◌>>=◌, ◌>>◌,
}
use cyber_threat_intelligenc.Security.Throttle
use cyber_threat_intelligenc.Security.Throttle.{second}
use cyber_threat_intelligenc.Security.TokenStore
use cyber_threat_intelligenc.Security.Tokens.{
  Jwt, TokenType, access, refresh, TokenClaims, TokenService, TokenPair, issue_pair, decode_token,
}
use cyber_threat_intelligenc.Auth.Store.{
  User, AuditLog, Database, Backend, get_user?, get_by_email, update_user, audit_record, on_db,
}

-- The Argon2 library under `PasswordHasher` of app/security/crypto.py. Its `verify` returns, or
-- raises one of the three exceptions that the wrapper catches.
pub data Verification : Type 0 where
  matches mismatch invalid_hash verification_failed : Verification

pub record Argon2 : Type 0 where
  pub hash : String → String → String
  pub verify : String → String → Verification
  pub check_needs_rehash : String → Bool

abbrev pub verified : Verification → Bool
verified matches = true
verified mismatch = false
verified invalid_hash = false
verified verification_failed = false

-- `PasswordHasher.verify`
unfoldable pub verify : Argon2 → String → String → Bool
verify A hashed password = verified (A.verify hashed password)

-- `PasswordHasher.hash`, with the salt that the library draws.
abbrev pub hash_password : Argon2 → String → String → String
hash_password A salt password = A.hash salt password

-- `PasswordHasher.needs_rehash`
abbrev pub needs_rehash : Argon2 → String → Bool
needs_rehash A hashed = A.check_needs_rehash hashed

pub record Moment : Type 0 where
  pub wall : ℕ
  pub mono : ℕ

-- The random values of a request.
pub record Randomness : Type 0 where
  pub salt : String
  pub access_jti : Text
  pub refresh_jti : Text

-- `_remaining_ttl`: `int` drops the fraction, and a time that is past counts as 1 too.
unfoldable pub remaining_ttl : ℕ → ℕ → ℕ
remaining_ttl now expires_at = max 1 ((expires_at - now) / second)

abbrev pub login_audit : String → Option String → Option String → AuditLog
login_audit action user_id ip = record {
  action = action;
  user_id = user_id;
  ip_address = ip;
  detail = [];
}

abbrev pub invalid_credentials : AppError
invalid_credentials = authentication_error "Invalid email or password."

abbrev throttle_is_locked : ℕ → Text → Exec Backend Bool
throttle_is_locked now email b =
    let (locked, throttle') = Throttle.is_locked now email b.throttle in
    (ok locked, record b { throttle = throttle' })

abbrev throttle_failure : ℕ → Text → Exec Backend (Unit {0})
throttle_failure now email b =
    (ok tt, record b { throttle = Throttle.record_failure now email b.throttle })

abbrev throttle_success : Text → Exec Backend (Unit {0})
throttle_success email b = (ok tt, record b { throttle = Throttle.record_success email b.throttle })

abbrev revoke : ℕ → Text → ℕ → Exec Backend (Unit {0})
revoke now jti ttl b =
    (ok tt, record b { token_store = TokenStore.revoke now jti ttl b.token_store })

abbrev pub is_revoked : ℕ → Text → Exec Backend Bool
is_revoked now jti b =
    let (revoked, store') = TokenStore.is_revoked now jti b.token_store in
    (ok revoked, record b { token_store = store' })

module _ (J : Jwt) (A : Argon2) (tokens : TokenService) (at : Moment) (rand : Randomness) where
  issue : User → TokenPair J
  issue user =
      issue_pair J tokens (at.wall, at.wall, at.wall) rand.access_jti rand.refresh_jti user.id
        user.role

  -- The part of `authenticate` after the look-up of the user. The decoy verification of an unknown
  -- user only takes time.
  unfoldable pub check_user :
      Text → String → Option String → Option User → Exec Backend (TokenPair J)
  unfolding issue
  check_user email password ip none = do
    throttle_failure at.mono email
    on_db (audit_record (login_audit "auth.login_failed" none ip))
    raise invalid_credentials
  check_user email password ip (some user) =
      if not (verify A user.password_hash password)
      then (do
        throttle_failure at.mono email
        on_db (audit_record (login_audit "auth.login_failed" (some user.id) ip))
        raise invalid_credentials)
      else do
        raise_if (not user.is_active) invalid_credentials
        throttle_success email
        on_db (
            if needs_rehash A user.password_hash
            then update_user user.id
                (λ u. record u { password_hash = hash_password A rand.salt password })
            else λ db. db)
        on_db (audit_record (login_audit "auth.login" (some user.id) ip))
        pure (issue user)

  unfoldable pub authenticate : Text → String → Option String → Exec Backend (TokenPair J)
  unfolding check_user
  authenticate address password ip = do
    let email = lower address
    locked ← throttle_is_locked at.mono email
    wait ← gets (λ b. Throttle.retry_after at.mono email b.throttle)
    raise_if locked (account_locked wait)
    user ← gets (λ b. get_by_email email b.db)
    check_user email password ip user

  -- `user is None or not user.is_active`
  abbrev active_or_raise : Option User → AppError → Exec Backend User
  active_or_raise none e = raise e
  active_or_raise (some u) e = do raise_if (not u.is_active) e; pure u

  unfoldable pub refresh_pair : J.Token → Exec Backend (TokenPair J)
  unfolding issue remaining_ttl
  refresh_pair token = do
    claims ← lift (decode_token J tokens at.wall refresh token)
    revoked ← is_revoked at.mono claims.jti
    raise_if revoked (authentication_error "This refresh token has been revoked.")
    found ← gets (λ b. get_user? claims.subject b.db)
    user ← active_or_raise found (authentication_error "User no longer active.")
    revoke at.mono claims.jti (remaining_ttl at.wall claims.expires_at)
    pure (issue user)

  -- One half of `logout`: what cannot be decoded is ignored.
  abbrev revoke_decoded : Result TokenClaims → Exec Backend (Unit {0})
  revoke_decoded (err e) = pure tt
  revoke_decoded (ok claims) = revoke at.mono claims.jti (remaining_ttl at.wall claims.expires_at)

  abbrev audit_logout : Result TokenClaims → Exec Backend (Unit {0})
  audit_logout (err e) = pure tt
  audit_logout (ok claims) =
      on_db (audit_record (login_audit "auth.logout" (some claims.subject) none))

  unfoldable pub logout : J.Token → Option J.Token → Exec Backend (Unit {0})
  unfolding remaining_ttl
  logout refresh_token access_token = do
    let claims = decode_token J tokens at.wall refresh refresh_token
    revoke_decoded claims
    audit_logout claims
    elim access_token [
      | none ↦ pure tt
      | some token ↦ revoke_decoded (decode_token J tokens at.wall access token)
    ]
