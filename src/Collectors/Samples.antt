-- ===== src/Collectors/Samples.antt =====
-- `SAMPLES` of app/collectors/samples.py.
use cyber_threat_intelligenc.Prelude.{String, string_eq, Option, none, some, List, [], ◌∷◌, take, ℕ}
use cyber_threat_intelligenc.Prelude.Text.{codes}
use cyber_threat_intelligenc.Prelude.Dict.{Dict, lookup}
use cyber_threat_intelligenc.Indicators.{Confidence, Severity}
use cyber_threat_intelligenc.Iocs.Service.Batch.{CollectedIndicator}

abbrev pub samples : Dict String (List CollectedIndicator)
samples =
    (
      "abuseipdb",
      record {
        value = codes "198.51.100.23";
        source = "abuseipdb";
        confidence = Confidence.high;
        severity = Severity.high;
        tags = codes "bruteforce" ∷ codes "ssh" ∷ [];
        references = [];
        description = some (codes "SSH brute-force source (sample).");
      }
          ∷ record {
            value = codes "203.0.113.77";
            source = "abuseipdb";
            confidence = Confidence.medium;
            severity = Severity.medium;
            tags = codes "scanner" ∷ [];
            references = [];
            description = some (codes "Port scanner (sample).");
          }
          ∷ [],
    )
    ∷ (
      "urlhaus",
      record {
        value = codes "http://malware-drop.example/payload.bin";
        source = "urlhaus";
        confidence = Confidence.high;
        severity = Severity.critical;
        tags = codes "malware_download" ∷ codes "elf" ∷ [];
        references = codes "https://urlhaus.abuse.ch/" ∷ [];
        description = some (codes "Malware distribution URL (sample).");
      }
          ∷ [],
    )
    ∷ (
      "malwarebazaar",
      record {
        value = codes "44d88612fea8a8f36de82e1278abb02f";
        source = "malwarebazaar";
        confidence = Confidence.confirmed;
        severity = Severity.critical;
        tags = codes "trojan" ∷ codes "agenttesla" ∷ [];
        references = [];
        description = some (codes "AgentTesla sample (EICAR-style test hash).");
      }
          ∷ [],
    )
    ∷ (
      "otx",
      record {
        value = codes "phishing-login.example";
        source = "otx";
        confidence = Confidence.medium;
        severity = Severity.high;
        tags = codes "phishing" ∷ codes "credential_harvesting" ∷ [];
        references = [];
        description = some (codes "Phishing landing domain (sample).");
      }
          ∷ [],
    )
    ∷ (
      "cisa_kev",
      record {
        value = codes "CVE-2021-44228";
        source = "cisa_kev";
        confidence = Confidence.confirmed;
        severity = Severity.critical;
        tags = codes "kev" ∷ codes "rce" ∷ codes "log4j" ∷ [];
        references = codes "https://www.cisa.gov/known-exploited-vulnerabilities-catalog" ∷ [];
        description = some (codes "Apache Log4j2 RCE (Log4Shell) — known exploited.");
      }
          ∷ [],
    )
    ∷ (
      "rss",
      record {
        value = codes "CVE-2024-3400";
        source = "rss";
        confidence = Confidence.high;
        severity = Severity.high;
        tags = codes "advisory" ∷ codes "firewall" ∷ [];
        references = [];
        description = some (codes "Sample advisory feed item referencing a CVE.");
      }
          ∷ [],
    )
    ∷ []

abbrev pub samples_of : Option (List CollectedIndicator) → List CollectedIndicator
samples_of none = []
samples_of (some inds) = inds

unfoldable pub sample_for : String → ℕ → List CollectedIndicator
unfolding lookup
sample_for collector limit = take limit (samples_of (lookup collector samples))
