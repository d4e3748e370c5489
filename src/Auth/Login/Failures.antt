-- ===== src/Auth/Login/Failures.antt =====
-- What a refused login tells, leaves behind, and cannot do.
use cyber_threat_intelligenc.Prelude.{◌≡◌, refl, String, true, false, Option, none, some, arith}
use cyber_threat_intelligenc.Prelude.Text.{Text, lower}
use cyber_threat_intelligenc.Errors.{err, account_locked}
use cyber_threat_intelligenc.Security.Throttle
use cyber_threat_intelligenc.Security.Tokens.{Jwt, TokenService}
use cyber_threat_intelligenc.Auth.Store.{User, Backend, get_by_email, audit_record, unit_of_work}
use cyber_threat_intelligenc.Auth.Login.{
  Argon2, Moment, Randomness, verify, invalid_credentials, login_audit, check_user, authenticate,
}

module _ (J : Jwt) (A : Argon2) (tokens : TokenService) (at : Moment) (rand : Randomness) where
  -- The credentials are not those of an active account.
  abbrev pub IsRefused : Option User → String → Type 0
  IsRefused none password = Unit
  IsRefused (some u) password = verify A u.password_hash password ≡ true → u.is_active ≡ false

  check_user-refused :
      (email : Text) (password : String) (ip : Option String) (user : Option User) (b : Backend)
      → IsRefused user password
      → (check_user J A tokens at rand email password ip user b).0 ≡ err invalid_credentials
  unfolding check_user
  check_user-refused email password ip none b h = refl
  check_user-refused email password ip (some u) b h = ground (arith, h)

  -- An unknown address, a wrong password and a disabled account are refused with one and the same
  -- error, so that a caller who is not locked out cannot tell them apart.
  pub no_enumeration :
      (address : Text) (password : String) (ip : Option String) (b : Backend)
      → (Throttle.is_locked at.mono (lower address) b.throttle).0 ≡ false
      → IsRefused (get_by_email (lower address) b.db) password
      → (authenticate J A tokens at rand address password ip b).0 ≡ err invalid_credentials
  unfolding authenticate
  no_enumeration address password ip b unlocked refused =
      rw (unlocked, authenticate) (check_user-refused (lower address) password ip _ _ refused)

  -- While an identity is locked out every attempt is refused, the right password included, no
  -- further failure is counted and no row is written.
  pub locked_out :
      (address : Text) (password : String) (ip : Option String) (b : Backend)
      → (Throttle.is_locked at.mono (lower address) b.throttle).0 ≡ true
      → authenticate J A tokens at rand address password ip b
        ≡ (err (account_locked (Throttle.retry_after at.mono (lower address) b.throttle)), b)
  unfolding authenticate Throttle.is_locked
  locked_out address password ip b locked = ground (arith, locked)

  -- The user that a failed attempt is attributed to.
  abbrev pub attributed : Option User → Option String
  attributed none = none
  attributed (some u) = some u.id

  abbrev pub HasWrongPassword : Option User → String → Type 0
  HasWrongPassword none password = Unit
  HasWrongPassword (some u) password = verify A u.password_hash password ≡ false

  check_user-fails :
      (email : Text) (password : String) (ip : Option String) (user : Option User) (b : Backend)
      → HasWrongPassword user password
      → check_user J A tokens at rand email password ip user b ≡ (
        err invalid_credentials,
        record b {
          throttle = Throttle.record_failure at.mono email b.throttle;
          db = audit_record (login_audit "auth.login_failed" (attributed user) ip) b.db;
        },
      )
  unfolding check_user
  check_user-fails email password ip none b h = refl
  check_user-fails email password ip (some u) b h = ground (arith, h)

  -- A login with an unknown address or a wrong password writes the entry "auth.login_failed" to
  -- the audit log, and the rollback of its request takes the entry out again: none is ever
  -- committed. The failure that the throttle counted stays.
  pub failed_login_leaves_no_audit :
      (address : Text) (password : String) (ip : Option String) (b : Backend)
      → (Throttle.is_locked at.mono (lower address) b.throttle).0 ≡ false
      → HasWrongPassword (get_by_email (lower address) b.db) password
      → let login = authenticate J A tokens at rand address password ip in
        let entry =
          login_audit "auth.login_failed" (attributed (get_by_email (lower address) b.db)) ip in
        ((login b).1.db ≡ audit_record entry b.db)
        × ((unit_of_work login b).1.db ≡ b.db)
        × ((unit_of_work login b).1.throttle
            ≡ Throttle.record_failure at.mono
                (lower address)
                (Throttle.is_locked at.mono (lower address) b.throttle).1)
  unfolding authenticate unit_of_work
  failed_login_leaves_no_audit address password ip b unlocked wrong =
      rw (unlocked, authenticate)
        (ground (
          arith,
          check_user-fails (lower address) password ip (get_by_email (lower address) b.db)
              (record b { throttle = (Throttle.is_locked at.mono (lower address) b.throttle).1 })
              wrong,
        ))
