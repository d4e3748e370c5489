-- ===== src/Alerts/Laws.antt =====
-- Which alerts an indicator raises, and which requests alerting makes.
use mathlib.Core.List.{append-nil, append_assoc}
use cyber_threat_intelligenc.Prelude.{
  ℕ, ◌≡◌, refl, ◌∙◌, sym, Bool, true, not, ◌||◌, String, string_eq, Option, none, some, List, [],
  ◌∷◌, ◌++◌, All, length, arith, Bool-cases, inl, inr, ◌==◌,
}
use cyber_threat_intelligenc.Prelude.Text.{Text, text_eq}
use cyber_threat_intelligenc.Events.{EventBus, publish}
use cyber_threat_intelligenc.Ssrf.{Network, SafeTarget, Checked, safe, refused, validate}
use cyber_threat_intelligenc.Alerts.{
  AlertRule, Ioc, Alert, State, Policy, Notice, matches, active_rules, new_alert, send, deliver_to,
  deliver, raise_alert, evaluate, evaluate_ioc, is_web,
}

-- The events of an evaluation, published in turn.
unfoldable pub publish_all : List Notice → EventBus Notice → EventBus Notice
publish_all [] bus = bus
publish_all (n ∷ ns) bus = publish_all ns (publish n bus)

module _ (N : Network) (policy : Policy) (post : Text → Bool) where
  -- What a list of alerts is for the rules that raised them: one each, in order, marked as
  -- delivered as the delivery went.
  abbrev pub Answers : Ioc → List AlertRule → List Alert → Type 0
  Answers ioc [] [] = Unit
  Answers ioc (r ∷ rs) (a ∷ raised) =
      (a ≡ record (new_alert a.id r ioc) { delivered = (deliver N policy post r).0 })
      × Answers ioc rs raised
  Answers ioc _ _ = ⊥

  -- The guard accepts the URL, and outbound calls are enabled.
  abbrev pub IsAllowed : Text → Type 0
  IsAllowed url =
      (policy.enable_live_collectors ≡ true)
      × ((t : SafeTarget) × (validate N policy.allowed url ≡ safe t))

  abbrev pub Grows : List Text → List Text → Type 0
  Grows old now = (urls : List Text) × (now ≡ old ++ urls) × All IsAllowed urls

  send-IsAllowed :
      (url : Text) (c : Checked SafeTarget)
      → policy.enable_live_collectors ≡ true
      → validate N policy.allowed url ≡ c
      → All IsAllowed (send N policy post url c).1
  send-IsAllowed url (refused reason) live e = tt
  send-IsAllowed url (safe t) live e = ((live, (t, e)), tt)

  deliver_to-IsAllowed : (url : Option Text) → All IsAllowed (deliver_to N policy post url).1
  deliver_to-IsAllowed none = tt
  deliver_to-IsAllowed (some url) =
      elim (Bool-cases (url == [] || not policy.enable_live_collectors)) [
        | inl held ↦ rw held tt
        | inr free ↦
            rw free (send-IsAllowed url (validate N policy.allowed url) (ground (arith, free)) refl)
      ]

  deliver-IsAllowed : (r : AlertRule) → All IsAllowed (deliver N policy post r).1
  unfolding deliver
  deliver-IsAllowed r = elim (Bool-cases (r.channel == "log")) [
    | inl logged ↦ rw logged tt
    | inr other ↦ elim (Bool-cases (is_web r.channel)) [
      | inl web ↦ rw (other, web) (deliver_to-IsAllowed r.url)
      | inr unknown ↦ rw (other, unknown) tt
    ]
  ]

  All-append : (xs ys : List Text) → All IsAllowed xs → All IsAllowed ys → All IsAllowed (xs ++ ys)
  All-append [] ys h k = k
  All-append (x ∷ xs) ys (a, h) k = (a, All-append xs ys h k)

  evaluate-Grows :
      (new_id : ℕ → String) (rules : List AlertRule) (ioc : Ioc) (s : State)
      → Grows s.posted (evaluate N policy post new_id rules ioc s).1.posted
  unfolding evaluate raise_alert
  evaluate-Grows new_id [] ioc s = ([], sym (append-nil s.posted), tt)
  evaluate-Grows new_id (r ∷ rs) ioc s =
      let s' = (raise_alert N policy post (new_id (length s.alerts)) r ioc s).1 in
      let urls = (deliver N policy post r).1 in
      elim (Bool-cases (matches r ioc)) [
        | inl yes_r ↦
            let (more, e, fine) = evaluate-Grows new_id rs ioc s' in
            rw yes_r (
              urls ++ more,
              e ∙ append_assoc s.posted urls more,
              All-append urls more (deliver-IsAllowed r) fine,
            )
        | inr no_r ↦ rw no_r (evaluate-Grows new_id rs ioc s)
      ]

  -- Evaluating an indicator sends requests only to URLs that the SSRF guard accepts, and none
  -- unless outbound calls are enabled.
  pub evaluate_ioc_guarded :
      (new_id : ℕ → String) (ioc : Ioc) (s : State)
      → Grows s.posted (evaluate_ioc N policy post new_id ioc s).1.posted
  unfolding evaluate_ioc
  evaluate_ioc_guarded new_id ioc s = evaluate-Grows new_id (active_rules s) ioc s
