-- ===== src/Security/Tokens.antt =====
-- app/security/tokens.py. PyJWT is a parameter: `Jwt` has its two functions, and `IsLawful` says
-- what it documents. A wall-clock reading is a number of microseconds, `exp` a number of seconds.
use cyber_threat_intelligenc.Prelude.{
  ℕ, ◌+◌, ◌-◌, ◌*◌, ◌/◌, ◌≤◌, ◌<◌, String, ◌≡◌, Bool, true, false, if◌then◌else◌, ◌==◌, string_eq,
  arith, refl,
}
use cyber_threat_intelligenc.Prelude.Text.{Text, text_eq}
use cyber_threat_intelligenc.Errors.{invalid_token, Result, ok, err}
use cyber_threat_intelligenc.Security.Throttle.{second}

pub data TokenType : Type 0 where
  access refresh : TokenType

abbrev pub same_type : TokenType → TokenType → Bool
same_type access access = true
same_type refresh refresh = true
same_type _ _ = false

pub record Payload : Type 0 where
  pub sub : String
  pub role : String
  pub token_type : TokenType
  pub jti : Text
  pub iat : ℕ
  pub nbf : ℕ
  pub exp : ℕ

pub data Decoded : Type 0 where
  payload : Payload → Decoded
  expired_signature invalid : Decoded

pub record Jwt : Type 1 where
  pub Token : Type 0
  pub encode : Payload → String → Token
  pub decode : ℕ → Token → String → Decoded

-- A token decodes, under the secret that signed it, to its payload, unless the clock has not
-- reached `nbf` and `iat` or has reached `exp`.
pub record IsLawful (J : Jwt) : Type 0 where
  pub decode-encode_live :
      (p : Payload) (secret : String) (now : ℕ)
      → p.iat * second ≤ now
      → p.nbf * second ≤ now
      → now < p.exp * second
      → J.decode now (J.encode p secret) secret ≡ payload p
  pub decode-encode_expired :
      (p : Payload) (secret : String) (now : ℕ)
      → p.iat * second ≤ now
      → p.nbf * second ≤ now
      → p.exp * second ≤ now
      → J.decode now (J.encode p secret) secret ≡ expired_signature
  -- The payload is part of the token: it does not depend on when it is decoded.
  pub decode_stable :
      (token : J.Token) (secret : String) (now later : ℕ) (p q : Payload)
      → J.decode now token secret ≡ payload p
      → J.decode later token secret ≡ payload q
      → p ≡ q

pub record TokenClaims : Type 0 where
  pub subject : String
  pub role : String
  pub token_type : TokenType
  pub jti : Text
  pub expires_at : ℕ

pub record TokenService : Type 0 where
  pub secret : String
  pub access_ttl : ℕ
  pub refresh_ttl : ℕ

abbrev or_viewer : String → String
or_viewer role = if role == "" then "viewer" else role

abbrev expected_message : TokenType → String
expected_message access = "Expected a access token."
expected_message refresh = "Expected a refresh token."

-- What `decode` makes of PyJWT's answer.
claims_of : TokenType → Decoded → Result TokenClaims
claims_of expected expired_signature = err (invalid_token "Token has expired.")
claims_of expected invalid = err (invalid_token "Token is invalid.")
claims_of expected (payload p) =
    if same_type p.token_type expected
    then ok (record {
      subject = p.sub;
      role = or_viewer p.role;
      token_type = p.token_type;
      jti = p.jti;
      expires_at = p.exp * second;
    })
    else err (invalid_token (expected_message expected))

module _ (J : Jwt) where
  pub record TokenPair : Type 0 where
    pub access_token : J.Token
    pub refresh_token : J.Token
    pub expires_in : ℕ

  -- The payload that `_encode` signs; `jti` is the random id. The token's life ends `ttl`
  -- microseconds from `now`.
  unfoldable pub claims_for : ℕ → Text → String → String → TokenType → ℕ → Payload
  claims_for now jti subject role token_type ttl = record {
    sub = subject;
    role = role;
    token_type = token_type;
    jti = jti;
    iat = now / second;
    nbf = now / second;
    exp = (now + ttl) / second;
  }

  unfoldable pub encode_token : TokenService → ℕ → Text → String → String → TokenType → ℕ → J.Token
  unfolding claims_for
  encode_token s now jti subject role token_type ttl =
      J.encode (claims_for now jti subject role token_type ttl) s.secret

  -- `issue_pair`, with its three readings of the clock.
  unfoldable pub issue_pair : TokenService → ℕ × ℕ × ℕ → Text → Text → String → String → TokenPair
  unfolding encode_token
  issue_pair s (t1, t2, t3) access_jti refresh_jti subject role = record {
    access_token = encode_token s t1 access_jti subject role access s.access_ttl;
    refresh_token = encode_token s t2 refresh_jti subject role refresh s.refresh_ttl;
    expires_in = (t1 + s.access_ttl - t3) / second;
  }

  -- `decode` with `expected_type`.
  unfoldable pub decode_token : TokenService → ℕ → TokenType → J.Token → Result TokenClaims
  unfolding claims_of
  decode_token s now expected token = claims_of expected (J.decode now token s.secret)

  claims_of-stable :
      IsLawful J
      → (s : TokenService) (expected : TokenType) (token : J.Token) (now later : ℕ) (d d' : Decoded)
        (c c' : TokenClaims)
      → J.decode now token s.secret ≡ d
      → J.decode later token s.secret ≡ d'
      → claims_of expected d ≡ ok c
      → claims_of expected d' ≡ ok c'
      → c ≡ c'
  unfolding claims_of
  claims_of-stable L s expected token now later expired_signature d' c c' e e' h h' = cc
  claims_of-stable L s expected token now later invalid d' c c' e e' h h' = cc
  claims_of-stable L s expected token now later (payload p) expired_signature c c' e e' h h' = cc
  claims_of-stable L s expected token now later (payload p) invalid c c' e e' h h' = cc
  claims_of-stable L s expected token now later (payload p) (payload q) c c' e e' h h' =
      ground (arith, L.decode_stable token s.secret now later p q e e')

  -- A token has the same claims whenever it is accepted.
  pub decode_token-stable :
      IsLawful J
      → (s : TokenService) (expected : TokenType) (token : J.Token) (now later : ℕ)
        (c c' : TokenClaims)
      → decode_token s now expected token ≡ ok c
      → decode_token s later expected token ≡ ok c'
      → c ≡ c'
  unfolding decode_token
  decode_token-stable L s expected token now later c c' h h' =
      claims_of-stable L s expected token now later _ _ c c' refl refl h h'
