-- ===== src/Security/Throttle/Laws.antt =====
-- The in-process throttle: when an identity is locked, and for how long.
use cyber_threat_intelligenc.Prelude.{
  ℕ, ◌+◌, ◌*◌, ◌≤◌, ◌<◌, ◌≡◌, refl, ap, ◌∙◌, ◌≢◌, ◌&&◌, true, none, List, [], ◌∷◌, arith, length,
  leb, ltb, if◌then◌else◌, nat_eq,
}
use cyber_threat_intelligenc.Prelude.Dict.{lookup, lookup-insert, lookup-erase}
use cyber_threat_intelligenc.Prelude.Text.{Text, text_eq}
use cyber_threat_intelligenc.Security.Throttle.{
  second, normalise, Entry, InMemoryLoginThrottle, entry_or_new, is_locked, retry_after,
  failed_entry, record_failure, record_success,
}

-- The entry of an identity.
abbrev pub entry_of : Text → InMemoryLoginThrottle → Entry
entry_of identity t = entry_or_new (lookup (normalise identity) t.entries)

-- Failures of one identity, spelled in any way, at the given times.
unfoldable pub fail_at : List (ℕ × Text) → InMemoryLoginThrottle → InMemoryLoginThrottle
fail_at [] t = t
fail_at ((now, identity) ∷ rest) t = fail_at rest (record_failure now identity t)

abbrev pub SameIdentity : Text → List (ℕ × Text) → Type 0
SameIdentity identity [] = Unit
SameIdentity identity ((_, i) ∷ rest) =
    (normalise i ≡ normalise identity) × SameIdentity identity rest

entry-record_failure :
    (now : ℕ) (i identity : Text) (t : InMemoryLoginThrottle)
    → normalise i ≡ normalise identity
    → entry_of identity (record_failure now i t) ≡ failed_entry now t (entry_of identity t)
unfolding record_failure
entry-record_failure now i identity t e = rw e (
    ground (
      arith,
      lookup-insert (normalise identity) (normalise identity)
          (failed_entry now t (entry_or_new (lookup (normalise identity) t.entries))) t.entries,
    ))

failed_entry-facts :
    (now : ℕ) (t : InMemoryLoginThrottle) (entry : Entry)
    → ((failed_entry now t entry).failures ≡ entry.failures + 1)
      × ((failed_entry now t entry).locked_until ≡ (
          if leb t.max_attempts (entry.failures + 1)
          then now + t.lockout_seconds * second
          else entry.locked_until))
unfolding failed_entry
failed_entry-facts now t entry = ground arith

-- An identity is locked exactly before the time in its entry.
pub is_locked-eq :
    (now : ℕ) (identity : Text) (t : InMemoryLoginThrottle)
    → (is_locked now identity t).0 ≡ ltb now (entry_of identity t).locked_until
unfolding is_locked
is_locked-eq now identity t = ground arith

-- What `t` counts for an identity, with its limits.
abbrev Counted : Text → InMemoryLoginThrottle → ℕ → InMemoryLoginThrottle → Type 0
Counted identity t n t' =
    ((entry_of identity t').failures ≡ (entry_of identity t).failures + n)
    × ((entry_of identity t).locked_until ≡ 0
        → (entry_of identity t).failures + n < t.max_attempts
        → (entry_of identity t').locked_until ≡ 0)
    × (t'.max_attempts ≡ t.max_attempts)
    × (t'.lockout_seconds ≡ t.lockout_seconds)

limits-record_failure :
    (now : ℕ) (i : Text) (t : InMemoryLoginThrottle)
    → ((record_failure now i t).max_attempts ≡ t.max_attempts)
      × ((record_failure now i t).lockout_seconds ≡ t.lockout_seconds)
unfolding record_failure
limits-record_failure now i t = (refl, refl)

fail_at-Counted :
    (identity : Text) (xs : List (ℕ × Text)) (t : InMemoryLoginThrottle)
    → SameIdentity identity xs
    → Counted identity t (length xs) (fail_at xs t)
unfolding fail_at
fail_at-Counted identity [] t h = (omega arith, λ z _. z, refl, refl)
fail_at-Counted identity ((now, i) ∷ rest) t (same, h) =
    let next = record_failure now i t in
    let counted = fail_at-Counted identity rest next h in
    let step = entry-record_failure now i identity t same in
    let limits = limits-record_failure now i t in
    let facts = failed_entry-facts now t (entry_of identity t) in
    (
      omega (arith, counted.0, ap (λ (e : Entry). e.failures) step, facts.0),
      λ z lt.
          counted.1 (ap (λ (e : Entry). e.locked_until) step ∙ facts.1 ∙ ground (arith, z, lt))
            (omega (arith, lt, ap (λ (e : Entry). e.failures) step, facts.0, limits.0)),
      counted.2 ∙ limits.0,
      counted.3 ∙ limits.1,
    )

-- An identity that has no entry is locked after some failures, spelled in any way that is
-- normalised alike, exactly when they are at least `max_attempts`, and exactly for
-- `lockout_seconds` from the last of them.
pub lockout_exact :
    (identity i : Text) (xs : List (ℕ × Text)) (last now : ℕ) (t : InMemoryLoginThrottle)
    → lookup (normalise identity) t.entries ≡ none
    → SameIdentity identity xs
    → normalise i ≡ normalise identity
    → (is_locked now identity (record_failure last i (fail_at xs t))).0
      ≡ (leb t.max_attempts (length xs + 1) && ltb now (last + t.lockout_seconds * second))
lockout_exact identity i xs last now t new h same =
    let t' = fail_at xs t in
    let counted = fail_at-Counted identity xs t h in
    let start : entry_of identity t ≡ record { failures = 0; locked_until = 0 } = rw new refl in
    let facts = failed_entry-facts last t' (entry_of identity t') in
    rw (is_locked-eq, entry-record_failure last i identity t' same, facts.1)
      (ground (
        arith,
        counted.0,
        counted.1 (ap (λ (e : Entry). e.locked_until) start),
        counted.2,
        counted.3,
        ap (λ (e : Entry). e.failures) start,
        ap (λ (e : Entry). e.locked_until) start,
      ))

-- What a failure or a success of one identity does not change: whether another is locked.
pub others_unchanged :
    (now later : ℕ) (i identity : Text) (t : InMemoryLoginThrottle)
    → normalise i ≢ normalise identity
    → ((is_locked later identity (record_failure now i t)).0 ≡ (is_locked later identity t).0)
      × ((is_locked later identity (record_success i t)).0 ≡ (is_locked later identity t).0)
      × ((is_locked later identity (is_locked now i t).1).0 ≡ (is_locked later identity t).0)
unfolding is_locked record_failure record_success
others_unchanged now later i identity t ne =
    let key = normalise i in
    let j = normalise identity in
    (
      ground (
        arith,
        ne,
        lookup-insert j key (failed_entry now t (entry_or_new (lookup key t.entries))) t.entries,
      ),
      ground (arith, ne, lookup-erase j key t.entries),
      ground (arith, ne, lookup-erase j key t.entries),
    )

-- A success, and a look after the lockout has ended, forgive every failure of the identity.
pub forgiven :
    (now : ℕ) (identity : Text) (t : InMemoryLoginThrottle)
    → (lookup (normalise identity) (record_success identity t).entries ≡ none)
      × ((entry_of identity t).locked_until ≢ 0
          → (entry_of identity t).locked_until ≤ now
          → lookup (normalise identity) (is_locked now identity t).1.entries ≡ none)
unfolding is_locked record_success
forgiven now identity t =
    let key = normalise identity in
    (
      ground (arith, lookup-erase key key t.entries),
      λ locked over. ground (arith, locked, over, lookup-erase key key t.entries),
    )

-- While an identity is locked `retry_after` is the time left in whole seconds: a wait of that long
-- falls short of the end of the lockout by less than a second.
pub retry_after_bounds :
    (now : ℕ) (identity : Text) (t : InMemoryLoginThrottle)
    → (is_locked now identity t).0 ≡ true
    → let r = retry_after now identity t in
      let ends = (entry_of identity t).locked_until in
      (now + r * second ≤ ends) × (ends < now + r * second + second)
unfolding retry_after is_locked
retry_after_bounds now identity t h = ground (arith, h)
