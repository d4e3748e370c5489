-- ===== src/Security/Throttle.antt =====
-- app/security/throttle.py. A reading of the clock is a number of microseconds.
pub mod Laws
pub mod Redis
use cyber_threat_intelligenc.Prelude.{
  ℕ, ◌+◌, ◌-◌, ◌*◌, ◌/◌, Bool, true, false, Option, none, some, String, leb, ltb, if◌then◌else◌,
  ◌==◌, nat_eq, ◌++◌,
}
use cyber_threat_intelligenc.Prelude.Dict.{Dict, lookup, insert, erase}
use cyber_threat_intelligenc.Prelude.Text.{Text, text_eq, lower, strip, codes}

-- Ticks of the clock in a second.
abbrev pub second : ℕ
second = 1000000

-- `LoginThrottle.normalise`
unfoldable pub normalise : Text → Text
unfolding lower strip
normalise identity = lower (strip identity)

pub record Entry : Type 0 where
  pub failures : ℕ
  pub locked_until : ℕ

pub record InMemoryLoginThrottle : Type 0 where
  pub max_attempts : ℕ
  pub lockout_seconds : ℕ
  pub entries : Dict Text Entry

abbrev pub entry_or_new : Option Entry → Entry
entry_or_new none = record { failures = 0; locked_until = 0 }
entry_or_new (some entry) = entry

unfoldable pub is_locked : ℕ → Text → InMemoryLoginThrottle → Bool × InMemoryLoginThrottle
is_locked now identity t =
    let key = normalise identity in
    elim (lookup key t.entries) [
      | none ↦ (false, t)
      | some entry ↦
          if entry.locked_until == 0
          then (false, t)
          else if ltb now entry.locked_until
          then (true, t)
          else (false, record t { entries = erase key t.entries })
    ]

-- `int(...)` drops the fraction of a second, and the `max` is what subtraction on ℕ does.
unfoldable pub retry_after : ℕ → Text → InMemoryLoginThrottle → ℕ
retry_after now identity t = elim (lookup (normalise identity) t.entries) [
  | none ↦ 0
  | some entry ↦ if entry.locked_until == 0 then 0 else (entry.locked_until - now) / second
]

unfoldable pub failed_entry : ℕ → InMemoryLoginThrottle → Entry → Entry
failed_entry now t entry =
    if leb t.max_attempts (entry.failures + 1)
    then record { failures = entry.failures + 1; locked_until = now + t.lockout_seconds * second }
    else record entry { failures = entry.failures + 1 }

unfoldable pub record_failure : ℕ → Text → InMemoryLoginThrottle → InMemoryLoginThrottle
unfolding failed_entry
record_failure now identity t =
    let key = normalise identity in
    record t {
      entries = insert key (failed_entry now t (entry_or_new (lookup key t.entries))) t.entries;
    }

unfoldable pub record_success : Text → InMemoryLoginThrottle → InMemoryLoginThrottle
record_success identity t = record t { entries = erase (normalise identity) t.entries }
