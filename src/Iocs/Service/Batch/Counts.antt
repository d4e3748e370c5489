-- ===== src/Iocs/Service/Batch/Counts.antt =====
-- How a batch counts, and what fails of it.
use cyber_threat_intelligenc.Prelude.{ℕ, ◌+◌, ◌≡◌, ◌≤◌, length}
use cyber_threat_intelligenc.Errors.{Attempt, returned, thrown}
use cyber_threat_intelligenc.Prelude.Text.{Text}
use cyber_threat_intelligenc.Iocs.{IocRow}
use cyber_threat_intelligenc.Iocs.Service.{Session}
use cyber_threat_intelligenc.Iocs.Service.Batch.{Summary}

abbrev tally {ℓ} : {A : Type ℓ} → Attempt A → ℕ
tally (returned a) = 1
tally (thrown e) = 0

-- A turn from `s` that is one entry of the audit log and at most one row, or none of them.
abbrev IsCounted : Session → Attempt IocRow × Session → Type 0
IsCounted s r =
    (length r.1.audit_logs ≡ length s.audit_logs + tally r.0)
    × (length r.1.iocs ≤ length s.iocs + tally r.0)

-- What a batch of `n` indicators does to the counts and the tables.
abbrev IsTallied : ℕ → Summary → Session → Summary × Session → Type 0
IsTallied n before s (after, s') =
    (after.ingested + after.skipped ≡ before.ingested + before.skipped + n)
    × (length s'.audit_logs + before.ingested ≡ length s.audit_logs + after.ingested)
    × (length s'.iocs + before.ingested ≤ length s.iocs + after.ingested)
