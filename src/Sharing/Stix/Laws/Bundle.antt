-- ===== src/Sharing/Stix/Laws/Bundle.antt =====
-- A bundle that is exported and imported again.
use mathlib.Core.List.{append-nil}
use cyber_threat_intelligenc.Prelude.{
  ℕ, ◌≡◌, refl, sym, ap, ◌∙◌, false, Option, none, some, List, [], ◌∷◌, ◌++◌, All, contains,
  concat_map, ◌==◌, nat_eq,
}
use native.Mathlib.Decide.{ℕ_discrete}
use cyber_threat_intelligenc.Prelude.Text.{Text, text_eq, codes}
use cyber_threat_intelligenc.Prelude.Json.{Json, string, get, truthy, members, elements-items}
use cyber_threat_intelligenc.Errors.{Attempt, returned, thrown}
use cyber_threat_intelligenc.Indicators.{
  IocType, ipv4, ipv6, domain, url, md5, sha1, sha256, email, hostname, cve, mitre_technique, yara,
  sigma, parse_type,
}
use cyber_threat_intelligenc.Indicators.Classify.{Parsers}
use cyber_threat_intelligenc.Indicators.Extract.{harvest, values}
use cyber_threat_intelligenc.Indicators.Extract.Stix.{
  JsonLibrary, by_type, harvest_of, chain, append_to, object_values, bundle_values,
  extract_from_stix, pattern_values,
}
use cyber_threat_intelligenc.Iocs.{IocRow}
use cyber_threat_intelligenc.Sharing.{Writers}
use cyber_threat_intelligenc.Sharing.Stix.{
  comparison, stix_pattern, sdo_for, sdo_of, sdo_objects, without_nulls, vulnerability,
  attack_pattern, indicator, Fields, bundle_objects, to_stix_bundle, identity, deterministic_id,
}
use cyber_threat_intelligenc.Sharing.Stix.Laws.Escape.{doubled, pattern_values-comparison}

-- What the importer reads of one exported row, by its type.
abbrev pub reread : Option IocType → Text → List Text
reread none value = []
reread (some cve) value = value ∷ []
reread (some mitre_technique) value = value ∷ []
reread (some yara) value = []
reread (some sigma) value = []
reread (some _) value = doubled value ∷ []

module _ (W : Writers) (J : JsonLibrary) where
  indicator_values :
      (by pattern : Text) (ioc : IocRow)
      → object_values J (sdo_objects W (some (indicator W by ioc pattern)))
        ≡ returned (pattern_values pattern)
  unfolding object_values sdo_objects indicator without_nulls get text_eq ℕ_discrete
  indicator_values by pattern ioc = ap returned (append-nil (pattern_values pattern))

  vulnerability_values :
      (by : Text) (ioc : IocRow)
      → (ioc.value == []) ≡ false
      → ((s : Text) → J.str (string s) ≡ s)
      → object_values J (sdo_objects W (some (vulnerability W by ioc))) ≡ returned (ioc.value ∷ [])
  unfolding object_values sdo_objects vulnerability without_nulls get truthy text_eq ℕ_discrete
  vulnerability_values by ioc full str = rw (full, str ioc.value) refl

  attack_pattern_values :
      (by : Text) (ioc : IocRow)
      → (ioc.value == []) ≡ false
      → ((s : Text) → J.str (string s) ≡ s)
      → object_values J (sdo_objects W (some (attack_pattern W by ioc))) ≡ returned (ioc.value ∷ [])
  unfolding object_values sdo_objects attack_pattern without_nulls get truthy text_eq ℕ_discrete
  attack_pattern_values by ioc full str = rw (full, str ioc.value) refl

  compared :
      (by : Text) (ioc : IocRow) (path : Text)
      → contains path 61 ≡ false
      → object_values J (sdo_objects W (some (indicator W by ioc (comparison path ioc.value))))
        ≡ returned (doubled ioc.value ∷ [])
  compared by ioc path lacks =
      indicator_values by (comparison path ioc.value) ioc
      ∙ ap returned (pattern_values-comparison path ioc.value lacks)

  -- One row: what is read is `reread` of its type.
  sdo_values :
      (by : Text) (ioc : IocRow) (t : Option IocType)
      → (ioc.value == []) ≡ false
      → ((s : Text) → J.str (string s) ≡ s)
      → object_values J (sdo_objects W (sdo_of W by ioc t)) ≡ returned (reread t ioc.value)
  unfolding object_values sdo_objects sdo_of stix_pattern ℕ_discrete
  sdo_values by ioc none full str = refl
  sdo_values by ioc (some cve) full str = vulnerability_values by ioc full str
  sdo_values by ioc (some mitre_technique) full str = attack_pattern_values by ioc full str
  sdo_values by ioc (some yara) full str = refl
  sdo_values by ioc (some sigma) full str = refl
  sdo_values by ioc (some ipv4) full str = compared by ioc (codes "ipv4-addr:value") refl
  sdo_values by ioc (some ipv6) full str = compared by ioc (codes "ipv6-addr:value") refl
  sdo_values by ioc (some domain) full str = compared by ioc (codes "domain-name:value") refl
  sdo_values by ioc (some url) full str = compared by ioc (codes "url:value") refl
  sdo_values by ioc (some email) full str = compared by ioc (codes "email-addr:value") refl
  sdo_values by ioc (some hostname) full str = compared by ioc (codes "domain-name:value") refl
  sdo_values by ioc (some md5) full str = compared by ioc (codes "file:hashes.'MD5'") refl
  sdo_values by ioc (some sha1) full str = compared by ioc (codes "file:hashes.'SHA-1'") refl
  sdo_values by ioc (some sha256) full str = compared by ioc (codes "file:hashes.'SHA-256'") refl

  chain-nil : (r : Attempt (List Text)) → r ≡ chain J (returned []) r
  chain-nil (returned vs) = refl
  chain-nil (thrown e) = refl

  chain-chain : (x r : Attempt (List Text)) → chain J x r ≡ chain J (chain J x (returned [])) r
  chain-chain (returned vs) r = ap (λ ws. append_to J ws r) (sym (append-nil vs))
  chain-chain (thrown e) r = refl

  objects-append :
      (o : Option Fields) (rest : List Json)
      → object_values J (sdo_objects W o ++ rest)
        ≡ chain J (object_values J (sdo_objects W o)) (object_values J rest)
  unfolding object_values sdo_objects
  objects-append none rest = chain-nil (object_values J rest)
  objects-append (some sdo) rest =
      let obj = members (without_nulls W sdo) in
      chain-chain (by_type J (get (codes "type") obj) obj) (object_values J rest)

  rows_values :
      (by : Text) (iocs : List IocRow)
      → All (λ (ioc : IocRow). (ioc.value == []) ≡ false) iocs
      → ((s : Text) → J.str (string s) ≡ s)
      → object_values J (bundle_objects W by iocs)
        ≡ returned (concat_map (λ (ioc : IocRow). reread (parse_type ioc.type) ioc.value) iocs)
  unfolding bundle_objects sdo_for object_values
  rows_values by [] full str = refl
  rows_values by (ioc ∷ iocs) (now, later) str =
      objects-append (sdo_for W by ioc) (bundle_objects W by iocs)
      ∙ ap (λ x. chain J x (object_values J (bundle_objects W by iocs)))
          (sdo_values by ioc (parse_type ioc.type) now str)
      ∙ ap (chain J (returned (reread (parse_type ioc.type) ioc.value)))
          (rows_values by iocs later str)

  bundle_values-bundle :
      (producer id : Text) (iocs : List IocRow)
      → All (λ (ioc : IocRow). (ioc.value == []) ≡ false) iocs
      → ((s : Text) → J.str (string s) ≡ s)
      → bundle_values J (some (to_stix_bundle W producer id iocs))
        ≡ returned (concat_map (λ (ioc : IocRow). reread (parse_type ioc.type) ioc.value) iocs)
  unfolding bundle_values to_stix_bundle identity object_values get text_eq ℕ_discrete
  bundle_values-bundle producer id iocs full str =
      ap (λ js. chain J (returned []) (object_values J js))
        (elements-items (bundle_objects W (deterministic_id W (codes "identity") producer) iocs))
      ∙ sym (
          chain-nil (
            object_values J
              (bundle_objects W (deterministic_id W (codes "identity") producer) iocs)))
      ∙ rows_values (deterministic_id W (codes "identity") producer) iocs full str

  -- Rows whose values are not empty are exported as a STIX bundle. A text that `json.loads` reads as
  -- that bundle, imported, yields what the importer's loop makes of: the value of each row that is
  -- a CVE or a technique, and the value with its backslashes doubled of each row of another type
  -- that has a pattern, in the order of the rows. `str` of a text is the text.
  pub extract-bundle :
      (P : Parsers) (limit : ℕ) (producer id document : Text) (iocs : List IocRow)
      → J.loads document ≡ some (to_stix_bundle W producer id iocs)
      → ((s : Text) → J.str (string s) ≡ s)
      → All (λ (ioc : IocRow). (ioc.value == []) ≡ false) iocs
      → extract_from_stix J P limit document
        ≡ values P (
            harvest P limit
              (concat_map (λ (ioc : IocRow). reread (parse_type ioc.type) ioc.value) iocs)
              [])
  unfolding extract_from_stix
  extract-bundle P limit producer id document iocs reads str full =
      ap (λ d. harvest_of J P limit (bundle_values J d)) reads
      ∙ ap (harvest_of J P limit) (bundle_values-bundle producer id iocs full str)
