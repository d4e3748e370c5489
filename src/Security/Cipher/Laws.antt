-- ===== src/Security/Cipher/Laws.antt =====
-- Rotating a key.
use cyber_threat_intelligenc.Prelude.{◌≡◌, refl, [], ◌∷◌}
use cyber_threat_intelligenc.Prelude.Text.{Text}
use cyber_threat_intelligenc.Errors.{ok}
use cyber_threat_intelligenc.Security.Cipher.{Fernet, IsLawful, encrypt, decrypt, rotate}

-- A secret that an old key encrypted is readable with a new key put before it, and once it has been
-- rotated the new key alone reads it: the old one can be dropped.
pub rotation :
    (F : Fernet)
    → IsLawful F
    → (new old : F.Key) (text : Text)
    → let stored = encrypt F (old ∷ []) text in
      let rotated = encrypt F (new ∷ old ∷ []) text in
      (decrypt F (new ∷ old ∷ []) stored ≡ ok text)
      × (rotate F (new ∷ old ∷ []) stored ≡ ok rotated)
      × (decrypt F (new ∷ []) rotated ≡ ok text)
unfolding encrypt decrypt rotate
rotation F L new old text =
    let readable = L.decrypt-encrypt (new ∷ []) [] [] old text in
    (
      rw (readable, decrypt) refl,
      rw (L.rotate-decrypt (new ∷ old ∷ []) (F.encrypt (old ∷ []) text) text readable, rotate) refl,
      rw (L.decrypt-encrypt [] [] (old ∷ []) new text, decrypt) refl,
    )
