-- ===== src/Tests/Alerts.antt =====
-- The SSRF guard, and alerts that are delivered through it.
use native.Mathlib.Decide.{ℕ_discrete}
use cyber_threat_intelligenc.Prelude.{
  ℕ, ◌≡◌, refl, String, string_eq, true, false, none, some, List, [], ◌∷◌, if◌then◌else◌, ◌==◌,
  nat_eq,
}
use cyber_threat_intelligenc.Prelude.Text.{Text, text_eq, codes, lower, ends_with}
use cyber_threat_intelligenc.Ssrf.{
  IpAddress, Network, UrlParts, absent, SafeTarget, safe, validate, resolve_public, host_allowed,
  ip_is_public,
}
use cyber_threat_intelligenc.Ssrf.Laws.{IsSafe, validate_sound}
use cyber_threat_intelligenc.Alerts.{AlertRule, Ioc, State, Policy, evaluate_ioc}
use cyber_threat_intelligenc.Alerts.Laws.{Grows, evaluate_ioc_guarded}

abbrev public_ip : IpAddress
public_ip = record {
  is_global = true;
  is_private = false;
  is_loopback = false;
  is_link_local = false;
  is_multicast = false;
  is_reserved = false;
  is_unspecified = false;
}

abbrev loopback_ip : IpAddress
loopback_ip = record public_ip { is_global = false; is_private = true; is_loopback = true }

abbrev hook : Text
hook = codes "https://hook.example/x"

abbrev host : Text
host = codes "hook.example"

abbrev good : Text
good = codes "198.35.26.96"

-- One host, with a public and (on port 80) a loopback address.
abbrev net : Network
net = record {
  ip_address = λ ip.
      if ip == good
      then some public_ip
      else if ip == codes "127.0.0.1"
      then some loopback_ip
      else none;
  urlsplit = λ url. some (record { scheme = codes "https"; hostname = some host; port = absent });
  getaddrinfo =
      λ h port. if port == 80 then some (good ∷ codes "127.0.0.1" ∷ []) else some (good ∷ []);
}

abbrev target : SafeTarget
target = record { url = hook; host = host; port = 443; resolved_ips = good ∷ [] }

abbrev allowed : List Text
allowed = codes "example" ∷ []

hook_is_safe : validate net allowed hook ≡ safe target
unfolding validate host_allowed ip_is_public lower ends_with text_eq ℕ_discrete
hook_is_safe = refl

validate_sound_example :
    (parts : UrlParts) × (net.urlsplit hook ≡ some parts) × IsSafe net allowed hook parts target
validate_sound_example = validate_sound net allowed hook target hook_is_safe

private_is_dropped : resolve_public net allowed host ≡ safe (good ∷ [])
unfolding resolve_public host_allowed ip_is_public lower ends_with text_eq ℕ_discrete
private_is_dropped = refl

abbrev policy : Policy
policy = record { enable_live_collectors = true; allowed = allowed }

abbrev any_new : AlertRule
any_new = record {
  id = "r1";
  name = codes "new";
  metric = "new_ioc";
  operator = "gte";
  threshold = 0;
  channel = "log";
  url = none;
  is_active = true;
}

abbrev severe : AlertRule
severe = record {
  id = "r2";
  name = codes "severe";
  metric = "threat_score";
  operator = "gte";
  threshold = 80;
  channel = "webhook";
  url = some hook;
  is_active = true;
}

abbrev ioc : Ioc
ioc = record {
  id = "i1";
  type = "domain-name";
  defanged_value = codes "evil[.]com";
  severity = "high";
  source = "manual";
  threat_score = 90;
  threat_level = "critical";
}

abbrev state : State
state = record {
  rules = any_new ∷ severe ∷ [];
  alerts = [];
  bus = record { queue_size = 100; subscribers = (0, []) ∷ [] };
  posted = [];
}

abbrev row : ℕ → String
row n = "a"

evaluate_ioc_guarded_example :
    Grows net policy (λ url. true) [] (evaluate_ioc net policy (λ url. true) row ioc state).1.posted
evaluate_ioc_guarded_example = evaluate_ioc_guarded net policy (λ url. true) row ioc state
