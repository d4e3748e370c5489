-- ===== src/Security/Cipher.antt =====
-- `SecretCipher` of app/security/crypto.py. The library cryptography is a parameter.
pub mod Laws
use cyber_threat_intelligenc.Prelude.{Option, none, some, List, [], ◌∷◌, ◌++◌, ◌≡◌}
use cyber_threat_intelligenc.Prelude.Text.{Text}
use cyber_threat_intelligenc.Errors.{encryption_error, Result, ok, err}

-- `Fernet` and `MultiFernet`, made of its keys. `none` is an `InvalidToken` or a `ValueError`.
pub record Fernet : Type 1 where
  pub Key : Type 0
  pub Token : Type 0
  pub parse_key : Text → Option Key
  pub encrypt : List Key → Text → Token
  pub decrypt : List Key → Token → Option Text
  pub rotate : List Key → Token → Option Token

-- The first key encrypts, every key decrypts, and `rotate` encrypts anew.
pub record IsLawful (F : Fernet) : Type 0 where
  pub decrypt-encrypt :
      (before after others : List F.Key) (k : F.Key) (text : Text)
      → F.decrypt (before ++ k ∷ after) (F.encrypt (k ∷ others) text) ≡ some text
  pub rotate-decrypt :
      (keys : List F.Key) (token : F.Token) (text : Text)
      → F.decrypt keys token ≡ some text
      → F.rotate keys token ≡ some (F.encrypt keys text)

module _ (F : Fernet) where
  -- The list comprehension of `__init__`, which the first invalid key ends.
  unfoldable pub parse_keys : List Text → Option (List F.Key)
  parse_keys [] = some []
  parse_keys (key ∷ keys) =
      let rest = parse_keys keys in
      elim (F.parse_key key) [
        | none ↦ none
        | some k ↦ elim rest [ none ↦ none | some ks ↦ some (k ∷ ks) ]
      ]

  -- `__init__`
  unfoldable pub secret_cipher : List Text → Result (List F.Key)
  unfolding parse_keys
  secret_cipher [] = err (encryption_error "SecretCipher requires at least one key.")
  secret_cipher (key ∷ keys) = elim (parse_keys (key ∷ keys)) [
    | none ↦ err (encryption_error "Invalid encryption key material.")
    | some ks ↦ ok ks
  ]

  unfoldable pub encrypt : List F.Key → Text → F.Token
  encrypt keys plaintext = F.encrypt keys plaintext

  unfoldable pub decrypt : List F.Key → F.Token → Result Text
  decrypt keys token = elim (F.decrypt keys token) [
    | none ↦ err (encryption_error "Failed to decrypt secret (bad key or corrupt data).")
    | some text ↦ ok text
  ]

  unfoldable pub rotate : List F.Key → F.Token → Result F.Token
  rotate keys token = elim (F.rotate keys token) [
    | none ↦ err (encryption_error "Failed to rotate secret.")
    | some token' ↦ ok token'
  ]
