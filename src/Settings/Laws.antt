-- ===== src/Settings/Laws.antt =====
-- What a production deployment that has started is known to be.
use cyber_threat_intelligenc.Prelude.{
  ◌≤◌, ◌≡◌, refl, Bool, true, false, not, ◌&&◌, ◌||◌, String, string_eq, none, List, [], ◌∷◌, ◌++◌,
  length, contains, ltb, arith, ◌==◌,
}
use cyber_threat_intelligenc.Prelude.Text.{Text, text_eq, codes}
use cyber_threat_intelligenc.Errors.{ok}
use cyber_threat_intelligenc.Security.Rbac.{ioc_write, has_permission, parse_role, permission_eq}
use cyber_threat_intelligenc.Auth.Store.{User, Backend}
use cyber_threat_intelligenc.Auth.Users.{register}
use cyber_threat_intelligenc.Settings.{
  Settings, production, missing, validate_runtime, refuse, note, Unsafe, no_encryption_key,
  weak_jwt_secret, debug_mode, cors_wildcard, writable_registration,
}

notes-nothing :
    (a b c d e : Bool)
    → note a no_encryption_key
        ++ (note b weak_jwt_secret
            ++ (note c debug_mode ++ (note d cors_wildcard ++ note e writable_registration)))
      ≡ []
    → (a ≡ false) × (b ≡ false) × (c ≡ false) × (d ≡ false) × (e ≡ false)
notes-nothing false false false false false h = (refl, refl, refl, refl, refl)
notes-nothing true b c d e h = cc
notes-nothing false true c d e h = cc
notes-nothing false false true d e h = cc
notes-nothing false false false true e h = cc
notes-nothing false false false false true h = cc

refuse-nothing : (reasons : List Unsafe) → refuse reasons ≡ none → reasons ≡ []
refuse-nothing [] h = refl
refuse-nothing (r ∷ rs) h = cc

nothing_missing :
    (s : Settings) → s.app_env ≡ production → validate_runtime s ≡ none → missing s ≡ []
unfolding validate_runtime
nothing_missing s prod h = refuse-nothing (missing s) (rw prod at h)

-- A production deployment that has started has an encryption key, a token secret of at least 32
-- characters, no debug mode, no wildcard origin, and registration that is closed or read-only.
pub validate_runtime_sound :
    (s : Settings)
    → s.app_env ≡ production
    → validate_runtime s ≡ none
    → ((s.master_encryption_key == []) ≡ false)
      × (32 ≤ length s.jwt_secret_key)
      × (s.app_debug ≡ false)
      × (contains s.cors_origins (codes "*") ≡ false)
      × ((s.allow_open_registration && not (s.registration_default_role == "viewer")) ≡ false)
unfolding missing
validate_runtime_sound s prod h =
    let (key, secret, debug, cors, registration) =
      notes-nothing (s.master_encryption_key == [])
        (s.jwt_secret_key == [] || ltb (length s.jwt_secret_key) 32) s.app_debug
        (contains s.cors_origins (codes "*"))
        (s.allow_open_registration && not (s.registration_default_role == "viewer"))
        (nothing_missing s prod h) in
    (key, ground (arith, secret), debug, cors, registration)

viewer_cannot_write : has_permission "viewer" ioc_write ≡ false
unfolding has_permission parse_role string_eq permission_eq
viewer_cannot_write = refl

-- Whoever registers on a production deployment that has started may not write indicators.
pub registered_cannot_write :
    (s : Settings) (hash : String → String) (id : String) (address : Text) (password : String)
    (b : Backend) (user : User)
    → s.app_env ≡ production
    → validate_runtime s ≡ none
    → (register s.allow_open_registration s.registration_default_role hash id address password b).0
      ≡ ok user
    → has_permission user.role ioc_write ≡ false
unfolding register parse_role
registered_cannot_write s hash id address password b user prod h registered =
    let (_, _, _, _, registration) = validate_runtime_sound s prod h in
    ground (arith, registered, registration, viewer_cannot_write)
