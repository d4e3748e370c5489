-- ===== src/Alerts.antt =====
-- app/services/alert_service.py. The clock and the random source of the rows' keys, and the remote
-- end of a web hook, are parameters. The text of an alert's message is its interpolated values.
pub mod Laws
use cyber_threat_intelligenc.Prelude.{
  ℕ, ◌+◌, Bool, true, false, not, ◌&&◌, ◌||◌, String, string_eq, Option, none, some, List, [], ◌∷◌,
  ◌++◌, keep, find?, length, drop, take, leb, contains, is_some, if◌then◌else◌, ◌==◌, nat_eq,
}
use mathlib.Core.List.{reverse}
use cyber_threat_intelligenc.Prelude.Text.{Text, text_eq, codes}
use cyber_threat_intelligenc.Events.{EventBus, publish}
use cyber_threat_intelligenc.Ssrf.{Network, SafeTarget, Checked, safe, refused, validate}

pub record AlertRule : Type 0 where
  pub id : String
  pub name : Text
  pub metric : String
  pub operator : String
  pub threshold : ℕ
  pub channel : String
  -- `channel_config.get("url")`
  pub url : Option Text
  pub is_active : Bool

-- The columns of an indicator that alerting reads.
pub record Ioc : Type 0 where
  pub id : String
  pub type : String
  pub defanged_value : Text
  pub severity : String
  pub source : String
  pub threat_score : ℕ
  pub threat_level : String

pub record Message : Type 0 where
  pub ioc_value : Text
  pub ioc_type : String
  pub score : ℕ
  pub level : String
  pub source : String

pub record Alert : Type 0 where
  pub id : String
  pub rule_id : String
  pub ioc_id : String
  pub severity : String
  pub title : Text
  pub message : Message
  pub delivered : Bool

-- The payload of the event "alert".
pub record Notice : Type 0 where
  pub id : String
  pub title : Text
  pub message : Message
  pub severity : String
  pub ioc : Text
  pub ioc_type : String
  pub threat_score : ℕ
  pub threat_level : String

-- `posted` are the URLs that an HTTP POST was sent to, in order. Tables are in the order of
-- creation.
pub record State : Type 0 where
  pub rules : List AlertRule
  pub alerts : List Alert
  pub bus : EventBus Notice
  pub posted : List Text

pub record Policy : Type 0 where
  pub enable_live_collectors : Bool
  pub allowed : List Text

unfoldable pub matches : AlertRule → Ioc → Bool
matches rule ioc =
    if rule.metric == "new_ioc"
    then true
    else if not (rule.metric == "threat_score")
    then false
    else if rule.operator == "gte"
    then leb rule.threshold ioc.threat_score
    else if rule.operator == "lte"
    then leb ioc.threat_score rule.threshold
    else ioc.threat_score == rule.threshold

unfoldable pub active_rules : State → List AlertRule
active_rules s = keep (λ (r : AlertRule). r.is_active) s.rules

abbrev pub new_alert : String → AlertRule → Ioc → Alert
new_alert id rule ioc = record {
  id = id;
  rule_id = rule.id;
  ioc_id = ioc.id;
  severity = ioc.severity;
  title = rule.name ++ codes ": " ++ ioc.defanged_value;
  message = record {
    ioc_value = ioc.defanged_value;
    ioc_type = ioc.type;
    score = ioc.threat_score;
    level = ioc.threat_level;
    source = ioc.source;
  };
  delivered = false;
}

abbrev pub notice_of : Alert → Ioc → Notice
notice_of alert ioc = record {
  id = alert.id;
  title = alert.title;
  message = alert.message;
  severity = alert.severity;
  ioc = ioc.defanged_value;
  ioc_type = ioc.type;
  threat_score = ioc.threat_score;
  threat_level = ioc.threat_level;
}

abbrev pub is_web : String → Bool
is_web channel = contains ("webhook" ∷ "slack" ∷ "discord" ∷ []) channel

module _ (N : Network) (policy : Policy) (post : Text → Bool) where
  -- The `try` block: `post` says whether the request to the URL ends without an exception.
  abbrev pub send : Text → Checked SafeTarget → Bool × List Text
  send url (refused reason) = (false, [])
  send url (safe target) = (post url, url ∷ [])

  abbrev pub deliver_to : Option Text → Bool × List Text
  deliver_to none = (false, [])
  deliver_to (some url) =
      if url == [] || not policy.enable_live_collectors
      then (false, [])
      else send url (validate N policy.allowed url)

  -- `_deliver`: the new value of `delivered`, and the URLs that were posted to.
  unfoldable pub deliver : AlertRule → Bool × List Text
  deliver rule =
      if rule.channel == "log"
      then (true, [])
      else if is_web rule.channel
      then deliver_to rule.url
      else (false, [])

  -- One turn of the loop of `evaluate_ioc`, for a rule that matches.
  unfoldable pub raise_alert : String → AlertRule → Ioc → State → Alert × State
  unfolding deliver
  raise_alert id rule ioc s =
      let (delivered, urls) = deliver rule in
      let alert = record (new_alert id rule ioc) { delivered = delivered } in
      (
        alert,
        record s {
          alerts = s.alerts ++ alert ∷ [];
          bus = publish (notice_of alert ioc) s.bus;
          posted = s.posted ++ urls;
        },
      )

  -- `new_id n` is the key of the n-th row.
  unfoldable pub evaluate : (ℕ → String) → List AlertRule → Ioc → State → List Alert × State
  unfolding raise_alert
  evaluate new_id [] ioc s = ([], s)
  evaluate new_id (rule ∷ rules) ioc s =
      let (alert, s') = raise_alert (new_id (length s.alerts)) rule ioc s in
      let raised = evaluate new_id rules ioc s' in
      let passed = evaluate new_id rules ioc s in
      if matches rule ioc then (alert ∷ raised.0, raised.1) else passed

  unfoldable pub evaluate_ioc : (ℕ → String) → Ioc → State → List Alert × State
  unfolding evaluate
  evaluate_ioc new_id ioc s = evaluate new_id (active_rules s) ioc s

unfoldable pub create_rule :
    String → Text → String → String → ℕ → String → Option Text → State → AlertRule × State
create_rule id name metric operator threshold channel url s =
    let rule : AlertRule = record {
      id = id;
      name = name;
      metric = metric;
      operator = operator;
      threshold = threshold;
      channel = channel;
      url = url;
      is_active = true;
    } in
    (rule, record s { rules = s.rules ++ rule ∷ [] })

-- The order of creation.
unfoldable pub list_rules : State → List AlertRule
list_rules s = s.rules

unfoldable pub delete_rule : String → State → Bool × State
delete_rule rule_id s =
    if is_some (find? (λ (r : AlertRule). r.id == rule_id) s.rules)
    then (true, record s { rules = keep (λ (r : AlertRule). not (r.id == rule_id)) s.rules })
    else (false, s)

-- The newest first.
unfoldable pub list_alerts : ℕ → ℕ → State → List Alert
list_alerts limit offset s = take limit (drop offset (reverse s.alerts))
