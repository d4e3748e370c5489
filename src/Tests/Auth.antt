-- ===== src/Tests/Auth.antt =====
-- Accounts, logins, refreshes and principals at work.
use native.Mathlib.Decide.{ℕ_discrete}
use cyber_threat_intelligenc.Prelude.{
  ◌≡◌, ◌≢◌, ◌⊎◌, refl, true, false, none, some, List, [], ◌∷◌, arith, String, string_eq,
}
use cyber_threat_intelligenc.Prelude.Dict.{lookup, insert, keep_values}
use cyber_threat_intelligenc.Prelude.Text.{Text, text_eq, codes, lower, strip}
use cyber_threat_intelligenc.Errors.{ok, err, is_ok}
use cyber_threat_intelligenc.Security.Rbac.{
  has_permission, parse_role, permission_eq, admin, analyst, viewer, role_eq, admin_manage,
}
use cyber_threat_intelligenc.Security.Throttle
use cyber_threat_intelligenc.Security.Throttle.{normalise}
use cyber_threat_intelligenc.Security.TokenStore
use cyber_threat_intelligenc.Security.TokenStore.Laws
use cyber_threat_intelligenc.Security.Tokens.{
  Payload, TokenClaims, TokenType, access, refresh, decode_token,
}
use cyber_threat_intelligenc.Auth.Store.{
  Backend, get_user?, get_by_email, get_by_hash, update_user, update_key, audit_record,
  count_active_with_role, unit_of_work,
}
use cyber_threat_intelligenc.Auth.Users
use cyber_threat_intelligenc.Auth.Users.{with_role}
use cyber_threat_intelligenc.Auth.Users.Admins
use cyber_threat_intelligenc.Auth.Users.Admins.{
  Op, registering, changing_role, changing_active, IsAdministered, run-IsAdministered,
  no_self_demotion,
}
use cyber_threat_intelligenc.Auth.Login.{
  Moment, verify, remaining_ttl, refresh_pair, authenticate, login_audit, invalid_credentials,
}
use cyber_threat_intelligenc.Auth.Login.Failures.{no_enumeration, failed_login_leaves_no_audit}
use cyber_threat_intelligenc.Auth.Login.Rotation.{replay_refused, replay_accepted}
use cyber_threat_intelligenc.Auth.Keys.{hash_api_key, resolve_api_key}
use cyber_threat_intelligenc.Auth.Principal.{
  CurrentPrincipal, user, api_key, by_token, by_key, get_current_principal, require,
}
use cyber_threat_intelligenc.Auth.Principal.Laws.{IsLive, principal-IsLive}
use cyber_threat_intelligenc.Auth.Principal.Demotion.{demoted_key_keeps_rights}
use cyber_threat_intelligenc.Api.Account
use cyber_threat_intelligenc.Api.Account.Laws.{Spares, handle-Spares}
use cyber_threat_intelligenc.Api.Admin.{Request, set_user_role, account, handle, call}
use cyber_threat_intelligenc.Api.Admin.Laws.{call-needs_admin}
use cyber_threat_intelligenc.Tests.Fixtures.{
  plain_jwt, plain_jwt-IsLawful, plain_argon2, plain_hash, tokens, rand, alice, bob, alice_key,
  throttle, backend,
}

backend-IsAdministered : IsAdministered backend
unfolding count_active_with_role get_user? string_eq
backend-IsAdministered = ((refl, (refl, tt)), omega arith)

-- Bob becomes an admin, then disables Alice, who then cannot disable Bob.
abbrev takeover : List Op
takeover =
    changing_role "alice" "bob" admin
    ∷ changing_active "bob" "alice" false
    ∷ changing_active "alice" "bob" false
    ∷ []

run-IsAdministered_example : IsAdministered (Admins.run takeover backend)
run-IsAdministered_example = run-IsAdministered takeover backend tt backend-IsAdministered

not_admin : analyst ≢ admin
not_admin h = ground (arith, h)

abbrev noon : Moment
noon = record { wall = 100000000; mono = 50000000 }

abbrev nobody : Text
nobody = codes "nobody@soc.example"

no_enumeration_example :
    (authenticate plain_jwt plain_argon2 tokens noon rand nobody "guess" none backend).0
    ≡ err invalid_credentials
unfolding Throttle.is_locked lookup get_by_email lower text_eq ℕ_discrete
no_enumeration_example =
    no_enumeration plain_jwt plain_argon2 tokens noon rand nobody "guess" none backend refl tt

abbrev locked_backend : Backend
locked_backend = record backend {
  throttle = record throttle {
    entries = (codes "bob@soc.example", record { failures = 3; locked_until = 63000000 }) ∷ [];
  };
}

failed_login_leaves_no_audit_example :
    let login =
      authenticate plain_jwt plain_argon2 tokens noon rand bob.email "guess" (some "192.0.2.7") in
    ((login backend).1.db ≡ record backend.db {
      audit_logs = login_audit "auth.login_failed" (some "bob") (some "192.0.2.7") ∷ [];
    })
    × ((unit_of_work login backend).1.db ≡ backend.db)
    × ((unit_of_work login backend).1.throttle
        ≡ Throttle.record_failure 50000000
            (lower bob.email)
            (Throttle.is_locked 50000000 (lower bob.email) throttle).1)
unfolding Throttle.is_locked lookup get_by_email lower text_eq ℕ_discrete verify string_eq
    audit_record
failed_login_leaves_no_audit_example =
    failed_login_leaves_no_audit plain_jwt plain_argon2 tokens noon rand bob.email "guess"
      (some "192.0.2.7") backend refl refl

-- Tokens of Bob's that expire at second 110: 9.5 seconds from `early`, and 0.3 from `at_the_end`.
abbrev bobs : TokenType → Payload × String
bobs kind = (
  record {
    sub = "bob";
    role = "analyst";
    token_type = kind;
    jti = codes "b1";
    iat = 90;
    nbf = 90;
    exp = 110;
  },
  "secret",
)

abbrev bobs_claims : TokenClaims
bobs_claims = record {
  subject = "bob";
  role = "analyst";
  token_type = refresh;
  jti = codes "b1";
  expires_at = 110000000;
}

abbrev early : Moment
early = record { wall = 100500000; mono = 50000000 }

abbrev soon : Moment
soon = record { wall = 105000000; mono = 54500000 }

abbrev at_the_end : Moment
at_the_end = record { wall = 109700000; mono = 59200000 }

abbrev refreshed : Backend
refreshed = record backend { token_store = (codes "b1", 59000000) ∷ [] }

replay_refused_example :
    is_ok (refresh_pair plain_jwt plain_argon2 tokens soon rand (bobs refresh) refreshed).0 ≡ false
unfolding decode_token string_eq refresh_pair TokenStore.is_revoked TokenStore.revoke
    TokenStore.prune remaining_ttl lookup insert get_user? keep_values Laws.run
replay_refused_example =
    replay_refused plain_jwt plain_argon2 tokens plain_jwt-IsLawful early soon rand rand
      (bobs refresh) bobs_claims [] backend refreshed tt refl refl (omega arith, omega arith)
      (omega arith) tt refl

replay_accepted_example :
    is_ok (refresh_pair plain_jwt plain_argon2 tokens at_the_end rand (bobs refresh) refreshed).0
    ≡ true
unfolding decode_token string_eq refresh_pair TokenStore.is_revoked TokenStore.revoke
    TokenStore.prune remaining_ttl lookup insert get_user? keep_values
replay_accepted_example =
    replay_accepted plain_jwt plain_argon2 tokens early at_the_end rand rand (bobs refresh)
      bobs_claims bob 9 backend refreshed tt refl refl (omega arith, omega arith) refl (omega arith)
      (omega arith) (omega arith) (omega arith) refl refl refl

-- The token says admin, the account says analyst.
abbrev stale_token : Payload × String
stale_token = (
  record {
    sub = "bob";
    role = "admin";
    token_type = access;
    jti = codes "b2";
    iat = 90;
    nbf = 90;
    exp = 990;
  },
  "secret",
)

abbrev bobs_principal : CurrentPrincipal
bobs_principal = record { id = "bob"; role = "analyst"; kind = user }

bob_signs_in : (by_token plain_jwt plain_hash tokens noon stale_token backend).0 ≡ ok bobs_principal
unfolding by_token decode_token string_eq TokenStore.is_revoked lookup get_user?
bob_signs_in = refl

principal-IsLive_example : IsLive backend bobs_principal
unfolding get_current_principal
principal-IsLive_example =
    principal-IsLive plain_jwt plain_hash tokens noon (some stale_token) [] bobs_principal backend
      bob_signs_in

-- Alice, no longer the only admin, is made a viewer by Bob.
abbrev two_admins : Backend
two_admins = record backend {
  db = record backend.db { users = alice ∷ record bob { role = "admin" } ∷ [] };
}

demoted_key_keeps_rights_example :
    let b = (Users.set_user_role "bob" "alice" viewer two_admins).1 in
    let p : CurrentPrincipal = record { id = "alice"; role = "admin"; kind = api_key } in
    (get_user? "alice" b.db ≡ some (with_role viewer alice))
    × ((by_key plain_jwt plain_hash tokens noon (codes "tip_x") b).0 ≡ ok p)
    × (require admin_manage p ≡ ok p)
unfolding Users.set_user_role get_user? get_by_hash hash_api_key strip string_eq
    count_active_with_role role_eq update_user audit_record
demoted_key_keeps_rights_example =
    demoted_key_keeps_rights plain_jwt plain_hash tokens noon "bob" viewer (codes "tip_x") alice_key
      alice two_admins refl refl refl refl refl refl

-- Alice's key may change roles; Bob, who is an analyst, may not.
abbrev promotion : Request
promotion = set_user_role "bob" admin

alice_promotes_bob :
    (call plain_jwt plain_hash tokens noon none (codes "tip_x") promotion backend).0
    ≡ ok (account (record bob { role = "admin" }))
unfolding call handle get_current_principal require has_permission permission_eq resolve_api_key
    text_eq get_user? get_by_hash hash_api_key strip string_eq count_active_with_role role_eq
    Users.set_user_role update_key
alice_promotes_bob = refl

call-needs_admin_example :
    let found =
      get_current_principal plain_jwt plain_hash tokens noon (some stale_token) [] backend in
    let after = call plain_jwt plain_hash tokens noon (some stale_token) [] promotion backend in
    ((p : CurrentPrincipal) × (found.0 ≡ ok p)
      × (parse_role p.role ≡ some admin)
      × IsLive backend p)
    ⊎ ((is_ok after.0 ≡ false) × (after.1 ≡ found.1))
call-needs_admin_example =
    call-needs_admin plain_jwt plain_hash tokens noon (some stale_token) [] promotion backend

-- Bob tries to revoke the key of Alice.
abbrev intrusion : Account.Request
intrusion = Account.revoke_api_key "k1"

handle-Spares_example :
    Spares "bob" backend (Account.handle plain_hash "k2" [] bobs_principal intrusion backend).1
unfolding Account.handle
handle-Spares_example = handle-Spares plain_hash "k2" [] bobs_principal intrusion backend (refl, tt)
