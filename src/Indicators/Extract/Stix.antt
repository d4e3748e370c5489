-- ===== src/Indicators/Extract/Stix.antt =====
-- `extract_from_stix` of app/ioc/extract.py. `json.loads` and `str` of a JSON value are parameters.
pub mod Termination
use cyber_threat_intelligenc.Prelude.{
  ℕ, zero, suc, Bool, true, false, Option, none, some, List, [], ◌∷◌, ◌++◌, map, length, contains,
  if◌then◌else◌, ◌==◌, nat_eq,
}
use cyber_threat_intelligenc.Prelude.Text.{Text, text_eq, codes, strip_left, replace}
use cyber_threat_intelligenc.Prelude.Json.{
  Json, string, array, object, Members, get, truthy, elements,
}
use cyber_threat_intelligenc.Errors.{
  Attempt, returned, thrown, app_error, type_error, validation_error,
}
use cyber_threat_intelligenc.Indicators.Classify.{Parsers}
use cyber_threat_intelligenc.Indicators.Extract.{harvest, values}

pub record JsonLibrary : Type 0 where
  -- `none` is a `JSONDecodeError`.
  pub loads : Text → Option Json
  pub str : Json → Text

-- `((?:[^'\\]|\\.)*)'`: the group and what follows the quotation mark. `escaped` after a backslash.
abbrev prepend : ℕ → Option (Text × Text) → Option (Text × Text)
prepend c none = none
prepend c (some (group, rest)) = some (c ∷ group, rest)

unfoldable pub quoted : Bool → Text → Option (Text × Text)
quoted escaped [] = none
quoted true (c ∷ s) = let rest = quoted false s in if c == 10 then none else prepend c rest
quoted false (c ∷ s) =
    let rest = quoted (c == 92) s in if c == 39 then some ([], s) else prepend c rest

abbrev after_quote : Text → Option (Text × Text)
after_quote [] = none
after_quote (c ∷ s) = if c == 39 then quoted false s else none

-- A match of `pattern_value` behind its "=".
unfoldable pub match_quoted : Text → Option (Text × Text)
unfolding quoted strip_left
match_quoted s = after_quote (strip_left s)

-- The groups that `finditer` finds, each search going on where the last match ended.
unfoldable pub scan : ℕ → Text → List Text
unfolding match_quoted
scan zero s = []
scan (suc fuel) [] = []
scan (suc fuel) (c ∷ s) = elim (if c == 61 then match_quoted s else none) [
  | none ↦ scan fuel s
  | some (group, rest) ↦ group ∷ scan fuel rest
]

-- `[m.group(1).replace("\\'", "'") for m in pattern_value.finditer(pattern)]`
unfoldable pub pattern_values : Text → List Text
unfolding scan replace
pattern_values pattern = map (replace (codes "\\'") (codes "'")) (scan (length pattern) pattern)

module _ (J : JsonLibrary) where
  external_id : Option Json → List Text
  external_id none = []
  external_id (some j) = if truthy j then J.str j ∷ [] else []

  -- `if isinstance(ref, dict) and ref.get("external_id")`
  external_ids : List Json → List Text
  unfolding external_id get
  external_ids [] = []
  external_ids (object ref ∷ refs) =
      external_id (get (codes "external_id") ref) ++ external_ids refs
  external_ids (_ ∷ refs) = external_ids refs

  -- What `for x in j` runs over, where a text or a dict gives texts, none of which is a dict.
  iterated : Json → Attempt (List Json)
  iterated (array js) = returned (elements js)
  iterated (string s) = returned []
  iterated (object ms) = returned []
  iterated _ = thrown type_error

  external_values : Attempt (List Json) → Attempt (List Text)
  unfolding external_ids
  external_values (returned refs) = returned (external_ids refs)
  external_values (thrown e) = thrown e

  -- `obj.get("external_references") or []`
  references : Option Json → Attempt (List Text)
  unfolding external_values iterated truthy
  references none = returned []
  references (some j) = if truthy j then external_values (iterated j) else returned []

  pattern_of : Option Json → List Text
  unfolding pattern_values
  pattern_of (some (string pattern)) = pattern_values pattern
  pattern_of _ = []

  -- Looking up a list or a dict in a set is a `TypeError`.
  unfoldable pub by_type : Option Json → Members → Attempt (List Text)
  unfolding references pattern_of get
  by_type (some (array _)) obj = thrown type_error
  by_type (some (object _)) obj = thrown type_error
  by_type (some (string type)) obj =
      if contains (codes "vulnerability" ∷ codes "attack-pattern" ∷ []) type
      then references (get (codes "external_references") obj)
      else returned (pattern_of (get (codes "pattern") obj))
  by_type _ obj = returned (pattern_of (get (codes "pattern") obj))

  abbrev pub append_to : List Text → Attempt (List Text) → Attempt (List Text)
  append_to vs (returned ws) = returned (vs ++ ws)
  append_to vs (thrown e) = thrown e

  abbrev pub chain : Attempt (List Text) → Attempt (List Text) → Attempt (List Text)
  chain (returned vs) rest = append_to vs rest
  chain (thrown e) rest = thrown e

  -- The loop over the objects.
  unfoldable pub object_values : List Json → Attempt (List Text)
  unfolding by_type get
  object_values [] = returned []
  object_values (object obj ∷ objs) =
      chain (by_type (get (codes "type") obj) obj) (object_values objs)
  object_values (_ ∷ objs) = object_values objs

  bundle_objects : Option Json → Attempt (List Json)
  unfolding iterated
  bundle_objects none = returned []
  bundle_objects (some j) = iterated j

  collected : Attempt (List Json) → Attempt (List Text)
  unfolding object_values
  collected (returned objs) = object_values objs
  collected (thrown e) = thrown e

  -- The values that the document offers, in order.
  unfoldable pub bundle_values : Option Json → Attempt (List Text)
  unfolding collected bundle_objects get
  bundle_values none = thrown (app_error (validation_error "Not a valid STIX/JSON document"))
  bundle_values (some (object bundle)) = collected (bundle_objects (get (codes "objects") bundle))
  bundle_values (some _) = thrown (app_error (validation_error "STIX input must be a JSON object."))

  abbrev pub harvest_of : Parsers → ℕ → Attempt (List Text) → Attempt (List Text)
  harvest_of P limit (returned vs) = values P (harvest P limit vs [])
  harvest_of P limit (thrown e) = thrown e

  -- Its second loop is that of `extract_from_text`: the check of `limit` also stands behind a
  -- repeated value there, where it cannot hold, since `found` did not grow.
  unfoldable pub extract_from_stix : Parsers → ℕ → Text → Attempt (List Text)
  unfolding bundle_values harvest
  extract_from_stix P limit text = harvest_of P limit (bundle_values (J.loads text))
