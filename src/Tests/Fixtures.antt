-- ===== src/Tests/Fixtures.antt =====
-- Instances of the models' parameters that keep the laws assumed of them, and some rows.
use cyber_threat_intelligenc.Prelude.{
  ℕ, ◌*◌, String, true, false, none, [], ◌∷◌, leb, ◌&&◌, if◌then◌else◌, ◌==◌, string_eq, arith,
}
use cyber_threat_intelligenc.Prelude.Text.{Text, codes}
use cyber_threat_intelligenc.Security.Throttle.{second, InMemoryLoginThrottle}
use cyber_threat_intelligenc.Security.Tokens.{
  Jwt, IsLawful, Payload, Decoded, payload, expired_signature, invalid, TokenService,
}
use cyber_threat_intelligenc.Auth.Store.{User, ApiKey, Backend}
use cyber_threat_intelligenc.Auth.Login.{Argon2, matches, mismatch, Randomness}

-- A token is its payload with the secret that it was signed with.
abbrev plain_decode : ℕ → Payload × String → String → Decoded
plain_decode now (p, signed) secret =
    if signed == secret
    then (if leb (p.exp * second) now
        then expired_signature
        else if leb (p.iat * second) now && leb (p.nbf * second) now
        then payload p
        else invalid)
    else invalid

abbrev pub plain_jwt : Jwt
plain_jwt = record {
  Token = Payload × String;
  encode = λ p secret. (p, secret);
  decode = plain_decode;
}

pub plain_jwt-IsLawful : IsLawful plain_jwt
plain_jwt-IsLawful = record {
  decode-encode_live = λ p secret now h1 h2 h3. ground (arith, h1, h2, h3);
  decode-encode_expired = λ p secret now h1 h2 h3. ground (arith, h1, h2, h3);
  decode_stable = λ token secret now later p q h1 h2. ground (arith, h1, h2);
}

-- A password is its own hash.
abbrev pub plain_argon2 : Argon2
plain_argon2 = record {
  hash = λ salt password. password;
  verify = λ hashed password. if hashed == password then matches else mismatch;
  check_needs_rehash = λ hashed. false;
}

abbrev pub plain_hash : Text → String
plain_hash [] = "empty"
plain_hash (c ∷ s) = "digest"

abbrev pub tokens : TokenService
tokens = record { secret = "secret"; access_ttl = 900000000; refresh_ttl = 604800000000 }

abbrev pub rand : Randomness
rand = record { salt = "salt"; access_jti = codes "a1"; refresh_jti = codes "r1" }

abbrev pub alice : User
alice = record {
  id = "alice";
  email = codes "alice@soc.example";
  password_hash = "correct";
  role = "admin";
  is_active = true;
}

abbrev pub bob : User
bob = record {
  id = "bob";
  email = codes "bob@soc.example";
  password_hash = "horse";
  role = "analyst";
  is_active = true;
}

abbrev pub alice_key : ApiKey
alice_key = record {
  id = "k1";
  user_id = "alice";
  name = "feed";
  key_hash = "digest";
  prefix = codes "tip_x";
  role = "admin";
  is_active = true;
  last_used_at = none;
}

abbrev pub throttle : InMemoryLoginThrottle
throttle = record { max_attempts = 3; lockout_seconds = 60; entries = [] }

abbrev pub backend : Backend
backend = record {
  db = record { users = alice ∷ bob ∷ []; api_keys = alice_key ∷ []; audit_logs = [] };
  token_store = [];
  throttle = throttle;
}
