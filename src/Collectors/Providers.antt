-- ===== src/Collectors/Providers.antt =====
-- The normalisers of app/collectors/providers.py. A provider's answer comes with the fields that the
-- source reads, of the types that the provider documents: `none` is a key that is not there. A result
-- `none` is an exception.
pub mod Bounds
use cyber_threat_intelligenc.Prelude.{
  ℕ, zero, suc, Bool, true, false, String, Option, none, some, List, [], ◌∷◌, ◌++◌, length, take,
  leb, if◌then◌else◌,
}
use cyber_threat_intelligenc.Prelude.Text.{Text, codes}
use cyber_threat_intelligenc.Indicators.{Confidence, Severity}
use cyber_threat_intelligenc.Iocs.Service.Batch.{CollectedIndicator}

pub record AbuseRow : Type 0 where
  pub ip_address : Option Text
  -- `int(row.get("abuseConfidenceScore", 0))`
  pub score : ℕ

-- An entry of URLhaus, MalwareBazaar, OTX or CISA: its value, tags and description.
pub record Entry : Type 0 where
  pub value : Option Text
  pub tags : List Text
  pub description : Option Text

-- An indicator of a pulse has only a value.
pub record Pulse : Type 0 where
  pub indicators : List (Option Text)
  pub tags : List Text
  pub name : Option Text

pub record FeedEntry : Type 0 where
  pub title : Option Text
  pub link : Option Text
  pub summary : Option Text

abbrev indicator_of :
    String → Text → Confidence → Severity → List Text → List Text → Option Text → CollectedIndicator
indicator_of source value confidence severity tags references description = record {
  value = value;
  source = source;
  confidence = confidence;
  severity = severity;
  tags = tags;
  references = references;
  description = description;
}

abbrev prepend :
    CollectedIndicator → Option (List CollectedIndicator) → Option (List CollectedIndicator)
prepend ind none = none
prepend ind (some inds) = some (ind ∷ inds)

-- `row["ipAddress"]` raises a `KeyError`.
abuse_row :
    AbuseRow → Option Text → Option (List CollectedIndicator) → Option (List CollectedIndicator)
abuse_row row none rest = none
abuse_row row (some ip) rest =
    let sure = leb 90 row.score in
    prepend
      (indicator_of "abuseipdb" ip (if sure then Confidence.high else Confidence.medium)
        (if sure then Severity.high else Severity.medium) (codes "blacklist" ∷ []) [] none)
      rest

abuse_rows : List AbuseRow → Option (List CollectedIndicator)
unfolding abuse_row
abuse_rows [] = some []
abuse_rows (row ∷ rows) = abuse_row row row.ip_address (abuse_rows rows)

-- `AbuseIPDBCollector._collect_live`
unfoldable pub collect_abuseipdb : ℕ → List AbuseRow → Option (List CollectedIndicator)
unfolding abuse_rows
collect_abuseipdb limit rows = abuse_rows (take limit rows)

-- `if not value: continue`
abbrev present : Option Text → Option Text
present none = none
present (some []) = none
present (some (c ∷ s)) = some (c ∷ s)

urlhaus_indicator : Entry → Text → CollectedIndicator
urlhaus_indicator entry url =
    indicator_of "urlhaus" url Confidence.high Severity.critical entry.tags
      (codes "https://urlhaus.abuse.ch/" ∷ []) entry.description

-- What `out` becomes, and whether the loop breaks.
pub data Step : Type 0 where
  next : List CollectedIndicator → Step
  stop : List CollectedIndicator → Step

-- `out.append(...)` and the check of the limit.
unfoldable pub append_within : ℕ → List CollectedIndicator → CollectedIndicator → Step
append_within limit out ind =
    if leb limit (length (out ++ ind ∷ [])) then stop (out ++ ind ∷ []) else next (out ++ ind ∷ [])

abbrev urlhaus_value : ℕ → List CollectedIndicator → Entry → Option Text → Step
urlhaus_value limit out entry none = next out
urlhaus_value limit out entry (some url) = append_within limit out (urlhaus_indicator entry url)

-- `entries[0]`, or nothing.
abbrev urlhaus_step : ℕ → List CollectedIndicator → List Entry → Step
urlhaus_step limit out [] = next out
urlhaus_step limit out (entry ∷ entries) = urlhaus_value limit out entry (present entry.value)

unfoldable pub urlhaus_loop :
    ℕ → List CollectedIndicator → List (List Entry) → List CollectedIndicator
unfolding urlhaus_indicator append_within
urlhaus_loop limit out [] = out
urlhaus_loop limit out (entries ∷ rest) = elim (urlhaus_step limit out entries) [
  | next out' ↦ urlhaus_loop limit out' rest
  | stop out' ↦ out'
]

-- `URLHausCollector._collect_live`
unfoldable pub collect_urlhaus : ℕ → List (List Entry) → List CollectedIndicator
unfolding urlhaus_loop
collect_urlhaus limit values = urlhaus_loop limit [] (take limit values)

-- The loops of MalwareBazaar and CISA, which skip a row without a value.
abbrev or_skip :
    (Text → CollectedIndicator) → Option Text → List CollectedIndicator → List CollectedIndicator
or_skip f none rest = rest
or_skip f (some value) rest = f value ∷ rest

unfoldable pub bazaar_rows : List Entry → List CollectedIndicator
bazaar_rows [] = []
bazaar_rows (row ∷ rows) =
    or_skip
      (λ sha256.
        indicator_of "malwarebazaar" sha256 Confidence.confirmed Severity.critical row.tags []
          row.description)
      (present row.value) (bazaar_rows rows)

-- `MalwareBazaarCollector._collect_live`
unfoldable pub collect_malwarebazaar : ℕ → List Entry → List CollectedIndicator
unfolding bazaar_rows
collect_malwarebazaar limit rows = bazaar_rows (take limit rows)

unfoldable pub kev_rows : List Entry → List CollectedIndicator
kev_rows [] = []
kev_rows (row ∷ rows) =
    or_skip
      (λ cve.
        indicator_of "cisa_kev" cve Confidence.confirmed Severity.critical (codes "kev" ∷ [])
          (codes "https://www.cisa.gov/known-exploited-vulnerabilities-catalog" ∷ [])
          row.description)
      (present row.value) (kev_rows rows)

-- `CisaKevCollector._collect_live`
unfoldable pub collect_cisa_kev : ℕ → List Entry → List CollectedIndicator
unfolding kev_rows
collect_cisa_kev limit rows = kev_rows (take limit rows)

otx_indicator : Pulse → Text → CollectedIndicator
otx_indicator pulse value =
    indicator_of "otx" value Confidence.medium Severity.high pulse.tags [] pulse.name

abbrev otx_value : ℕ → Pulse → List CollectedIndicator → Option Text → Step
otx_value limit pulse out none = next out
otx_value limit pulse out (some value) = append_within limit out (otx_indicator pulse value)

-- The inner loop; `stop` is its `return`.
unfoldable pub otx_pulse : ℕ → Pulse → List CollectedIndicator → List (Option Text) → Step
unfolding otx_indicator append_within
otx_pulse limit pulse out [] = next out
otx_pulse limit pulse out (ind ∷ inds) = elim (otx_value limit pulse out (present ind)) [
  | next out' ↦ otx_pulse limit pulse out' inds
  | stop out' ↦ stop out'
]

unfoldable pub otx_loop : ℕ → List CollectedIndicator → List Pulse → List CollectedIndicator
unfolding otx_pulse
otx_loop limit out [] = out
otx_loop limit out (pulse ∷ pulses) = elim (otx_pulse limit pulse out pulse.indicators) [
  | next out' ↦ otx_loop limit out' pulses
  | stop out' ↦ out'
]

-- `OTXCollector._collect_live`
unfoldable pub collect_otx : ℕ → List Pulse → List CollectedIndicator
unfolding otx_loop
collect_otx limit pulses = otx_loop limit [] pulses

-- `entry.get(key, default)`
abbrev or_text : Option Text → Text → Text
or_text none default = default
or_text (some text) default = text

rss_indicator : FeedEntry → CollectedIndicator
rss_indicator entry =
    indicator_of "rss" (or_text entry.title (codes "advisory")) Confidence.medium Severity.medium
      (codes "advisory" ∷ []) (or_text entry.link [] ∷ []) entry.summary

-- The inner loop; `stop` is its `return`.
unfoldable pub rss_feed : ℕ → List CollectedIndicator → List FeedEntry → Step
unfolding rss_indicator append_within
rss_feed limit out [] = next out
rss_feed limit out (entry ∷ entries) = elim (append_within limit out (rss_indicator entry)) [
  | next out' ↦ rss_feed limit out' entries
  | stop out' ↦ stop out'
]

unfoldable pub rss_loop :
    ℕ → List CollectedIndicator → List (List FeedEntry) → List CollectedIndicator
unfolding rss_feed
rss_loop limit out [] = out
rss_loop limit out (feed ∷ feeds) = elim (rss_feed limit out (take limit feed)) [
  | next out' ↦ rss_loop limit out' feeds
  | stop out' ↦ out'
]

-- `RSSCollector._collect_live`
unfoldable pub collect_rss : ℕ → List (List FeedEntry) → List CollectedIndicator
unfolding rss_loop
collect_rss limit feeds = rss_loop limit [] feeds
