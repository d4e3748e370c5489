-- ===== src/Collectors/Factory.antt =====
-- app/collectors/common.py, factory.py and registry.py, and the run of a collector in
-- app/workers/tasks.py. What the providers answer is a parameter.
pub mod Laws
use cyber_threat_intelligenc.Prelude.{
  ℕ, Bool, true, false, not, ◌&&◌, ◌||◌, String, string_eq, Option, none, some, List, [], ◌∷◌,
  contains, if◌then◌else◌, ◌==◌, is_some, map,
}
use cyber_threat_intelligenc.Prelude.Text.{Text, text_eq, codes, lower}
use cyber_threat_intelligenc.Prelude.Dict.{Dict, lookup}
use cyber_threat_intelligenc.Errors.{Result, ok, err, validation_error}
use cyber_threat_intelligenc.Iocs.Service.{Platform, Session}
use cyber_threat_intelligenc.Iocs.Service.Batch.{CollectedIndicator, Summary, ingest_from_collector}
use cyber_threat_intelligenc.Collectors.Samples.{sample_for}
use cyber_threat_intelligenc.Collectors.Providers.{
  AbuseRow, Entry, Pulse, FeedEntry, collect_abuseipdb, collect_urlhaus, collect_malwarebazaar,
  collect_otx, collect_cisa_kev, collect_rss,
}

-- The classes of `COLLECTOR_CLASSES`.
pub data Source : Type 0 where
  abuseipdb urlhaus malwarebazaar otx cisa_kev rss : Source

abbrev pub name_of : Source → String
name_of abuseipdb = "abuseipdb"
name_of urlhaus = "urlhaus"
name_of malwarebazaar = "malwarebazaar"
name_of otx = "otx"
name_of cisa_kev = "cisa_kev"
name_of rss = "rss"

-- `requires_key`, the same in the class and in the registry.
abbrev pub requires_key : Source → Bool
requires_key abuseipdb = true
requires_key otx = true
requires_key _ = false

abbrev pub sources : List Source
sources = abuseipdb ∷ urlhaus ∷ malwarebazaar ∷ otx ∷ cisa_kev ∷ rss ∷ []

-- `available`
unfoldable pub available : List String
available = map name_of sources

-- The settings that the factory reads; `provider_key` gives an empty text for no key.
pub record CollectorPolicy : Type 0 where
  pub enable_live_collectors : Bool
  pub provider_key : String → Text

pub record Collector : Type 0 where
  pub source : Source
  pub api_key : Text

-- A look-up in `SUPPORTED_COLLECTORS` and `COLLECTOR_CLASSES`, which have the same keys.
unfoldable pub source_named : List Source → Text → Option Source
source_named [] name = none
source_named (s ∷ ss) name =
    let rest = source_named ss name in if lower name == codes (name_of s) then some s else rest

-- What the six requests answer; `none` is an exception of the request or of its reading.
pub record Answers : Type 0 where
  pub abuse : Option (List AbuseRow)
  pub urls : Option (List (List Entry))
  pub samples : Option (List Entry)
  pub pulses : Option (List Pulse)
  pub vulnerabilities : Option (List Entry)
  pub feeds : Option (List (List FeedEntry))

abbrev with_answer :
    {A : Type 0} → (A → List CollectedIndicator) → Option A → Option (List CollectedIndicator)
with_answer f none = none
with_answer f (some a) = some (f a)

abbrev abuse_answer : ℕ → Option (List AbuseRow) → Option (List CollectedIndicator)
abuse_answer limit none = none
abuse_answer limit (some rows) = collect_abuseipdb limit rows

module _ (policy : CollectorPolicy) where
  abbrev made : Option Source → Result Collector
  made none = err (validation_error "Unsupported collector")
  made (some s) = ok (record {
    source = s;
    api_key = if requires_key s then policy.provider_key (name_of s) else [];
  })

  -- `build`
  unfoldable pub build : Text → Result Collector
  unfolding source_named lower
  build name = made (source_named sources name)

  unfoldable pub is_live : Collector → Bool
  is_live c =
      if not policy.enable_live_collectors
      then false
      else not (requires_key c.source && c.api_key == [])

  unfoldable pub collect_live : Source → ℕ → Answers → Option (List CollectedIndicator)
  unfolding collect_abuseipdb collect_urlhaus collect_malwarebazaar collect_otx collect_cisa_kev
      collect_rss
  collect_live abuseipdb limit answers = abuse_answer limit answers.abuse
  collect_live urlhaus limit answers = with_answer (collect_urlhaus limit) answers.urls
  collect_live malwarebazaar limit answers =
      with_answer (collect_malwarebazaar limit) answers.samples
  collect_live otx limit answers = with_answer (collect_otx limit) answers.pulses
  collect_live cisa_kev limit answers = with_answer (collect_cisa_kev limit) answers.vulnerabilities
  collect_live rss limit answers = with_answer (collect_rss limit) answers.feeds

  or_samples : Source → ℕ → Option (List CollectedIndicator) → List CollectedIndicator
  unfolding sample_for
  or_samples s limit none = sample_for (name_of s) limit
  or_samples s limit (some inds) = inds

  -- `collect`
  unfoldable pub collect : Collector → ℕ → Answers → List CollectedIndicator
  unfolding is_live collect_live or_samples
  collect c limit answers =
      if is_live c
      then or_samples c.source limit (collect_live c.source limit answers)
      else or_samples c.source limit none

  -- `_run_collector`: the rows are committed, since nothing of it raises once a collector is built.
  unfoldable pub run_collector :
      Platform → ℕ → Collector → ℕ → Answers → Session → Summary × Session
  unfolding collect ingest_from_collector
  run_collector W now c limit answers s =
      ingest_from_collector W now true (collect c limit answers) s
