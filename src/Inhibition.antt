-- ===== src/Inhibition.antt =====
-- The inhibition engine of src/inhibit-engine.ts. A label that is undefined is a missing key. A time
-- is in milliseconds, and a time that the code cannot read as a date is none. The inhibition log and
-- the meta alerts are lists of effects in the order of the calls; warnings on stderr are left out.
pub mod Sources
pub mod Survivors
use Prim.Native.String.{◌++◌ as text_append}
use threadwork.Prelude.{
  ℕ, ◌+◌, ◌%◌, String, Bool, true, false, not, ◌&&◌, ◌||◌, Option, none, some, List, [], ◌∷◌, ◌++◌,
  ◌==◌, str_eq, ltb, leb, if◌then◌else◌, or_else, is_some, text_is, any, every, keep, find,
}
use threadwork.Prelude.Store.{Store, lookup, insert}

abbrev pub AlertLabel : Type 0
AlertLabel = Store String

pub record InhibitRule : Type 0 where
  pub id : String
  pub source_match : Store String
  pub target_match : Store String
  pub equal_labels : List String
  pub expires_at : Option ℕ
  pub applies_to_critical : Option Bool

-- inhibit_rules.json with its mtime: `statSync` throws where there is no file.
pub data RulesFile : Type 0 where
  absent : RulesFile
  malformed : ℕ → RulesFile
  readable : ℕ → List InhibitRule → RulesFile

pub data Effect : Type 0 where
  rules_invalid : Effect
  log_suppressed : AlertLabel → String → Effect
  stale_inhibition : String → ℕ → ℕ → Effect

-- `rules_path` is none where the rules are kept in memory only.
pub record InhibitionEngine : Type 0 where
  pub rules : List InhibitRule
  pub rules_path : Option RulesFile
  pub rules_mtime : ℕ
  pub stale_tick_threshold : ℕ
  pub rule_active_ticks : Store ℕ
  pub rule_suppressed_counts : Store ℕ

pub record InhibitResult : Type 0 where
  pub survivors : List AlertLabel
  pub suppressed : List AlertLabel
  pub suppressed_by_rule : Store (List AlertLabel)

unfoldable pub match_labels : AlertLabel → Store String → Bool
unfolding lookup
match_labels alert wanted = every (λ (e : String × String). text_is (lookup e.0 alert) e.1) wanted

-- a === b, for values that may be undefined
abbrev pub same_value : Option String → Option String → Bool
same_value none none = true
same_value none (some t) = false
same_value (some s) none = false
same_value (some s) (some t) = str_eq s t

unfoldable pub labels_equal : AlertLabel → AlertLabel → List String → Bool
unfolding lookup
labels_equal a b labels = every (λ l. same_value (lookup l a) (lookup l b)) labels

-- Both alerts have the label, with the same value.
abbrev pub both_equal : Option String → Option String → Bool
both_equal none src = false
both_equal (some a) none = false
both_equal (some a) (some s) = str_eq a s

unfoldable pub shares_labels : AlertLabel → AlertLabel → List String → Bool
unfolding lookup
shares_labels alert src labels = every (λ l. both_equal (lookup l alert) (lookup l src)) labels

unfoldable pub is_matching_source : InhibitRule → AlertLabel → AlertLabel → Bool
unfolding match_labels labels_equal shares_labels
is_matching_source rule alert src =
    if not (match_labels src rule.source_match)
    then false
    else if match_labels src rule.target_match && labels_equal src alert rule.equal_labels
    then false
    else shares_labels alert src rule.equal_labels

abbrev pub is_critical : AlertLabel → Bool
is_critical alert = text_is (lookup "severity" alert) "CRITICAL"

-- The body of the loop over the rules: whether the rule suppresses the alert.
unfoldable pub suppresses : List AlertLabel → AlertLabel → InhibitRule → Bool
unfolding match_labels is_matching_source lookup
suppresses alerts alert rule =
    if not (any (λ src. match_labels src rule.source_match) alerts)
    then false
    else if not (match_labels alert rule.target_match)
    then false
    else if any (λ src. is_matching_source rule alert src) alerts
    then not (is_critical alert && not (or_else rule.applies_to_critical false))
    else false

abbrev pub is_unexpired : ℕ → InhibitRule → Bool
is_unexpired now rule = elim rule.expires_at [ none ↦ true | some exp ↦ not (ltb exp now) ]

unfoldable pub effective_rules : ℕ → List InhibitRule → List InhibitRule
effective_rules now rules = keep (is_unexpired now) rules

-- What the loop over the alerts has gathered.
pub record Pass : Type 0 where
  pub result : InhibitResult
  pub fired : List String
  pub counts : Store ℕ
  pub effects : List Effect

unfoldable pub suppress : String → AlertLabel → Pass → Pass
unfolding lookup insert
suppress id alert p = record {
  result = record {
    survivors = p.result.survivors;
    suppressed = p.result.suppressed ++ (alert ∷ []);
    suppressed_by_rule =
        insert id (or_else (lookup id p.result.suppressed_by_rule) [] ++ (alert ∷ []))
          p.result.suppressed_by_rule;
  };
  fired = id ∷ p.fired;
  counts = insert id (or_else (lookup id p.counts) 0 + 1) p.counts;
  effects = p.effects ++ (log_suppressed alert id ∷ []);
}

abbrev pub survive : AlertLabel → Pass → Pass
survive alert p = record p {
  result = record p.result { survivors = p.result.survivors ++ (alert ∷ []) };
}

-- What happens to an alert, by the first rule that suppresses it.
unfoldable pub judged : AlertLabel → Option InhibitRule → Pass → Pass
unfolding suppress
judged alert none p = survive alert p
judged alert (some rule) p = suppress rule.id alert p

unfoldable pub pass_over : List InhibitRule → List AlertLabel → List AlertLabel → Pass → Pass
unfolding judged suppresses
pass_over rules alerts [] p = p
pass_over rules alerts (alert ∷ later) p =
    pass_over rules alerts later (judged alert (find (suppresses alerts alert) rules) p)

-- The counters of consecutive ticks, and the meta alerts, for each rule in turn.
unfoldable pub count_ticks :
    ℕ → List String → Store ℕ → List InhibitRule → Store ℕ → Store ℕ × List Effect
unfolding lookup insert
count_ticks threshold fired counts [] ticks = (ticks, [])
count_ticks threshold fired counts (rule ∷ later) ticks =
    let n = or_else (lookup rule.id ticks) 0 + 1 in
    let again = count_ticks threshold fired counts later (insert rule.id n ticks) in
    let reset = count_ticks threshold fired counts later (insert rule.id 0 ticks) in
    if any (λ id. str_eq id rule.id) fired
    then if leb threshold n && (n % threshold == 0)
      then (again.0, stale_inhibition rule.id n (or_else (lookup rule.id counts) 0) ∷ again.1)
      else again
    else reset

unfoldable pub load_rules : ℕ → List InhibitRule → InhibitionEngine → InhibitionEngine
load_rules mtime rules e =
    if mtime == e.rules_mtime then e else record e { rules = rules; rules_mtime = mtime }

-- A file that does not load leaves the rules as they are.
unfoldable pub reload_rules : InhibitionEngine → InhibitionEngine × List Effect
unfolding load_rules
reload_rules e = elim e.rules_path [
  | none ↦ (e, [])
  | some f ↦ elim f [
    | absent ↦ (e, rules_invalid ∷ [])
    | malformed mtime ↦ if mtime == e.rules_mtime then (e, []) else (e, rules_invalid ∷ [])
    | readable mtime rules ↦ (load_rules mtime rules e, [])
  ]
]

abbrev pub empty_pass : Store ℕ → Pass
empty_pass counts = record {
  result = record { survivors = []; suppressed = []; suppressed_by_rule = [] };
  fired = [];
  counts = counts;
  effects = [];
}

-- The engine with its rules loaded, at work on the alerts of a tick.
unfoldable pub inhibit :
    List InhibitRule
    → List AlertLabel
    → InhibitionEngine
    → InhibitResult × InhibitionEngine × List Effect
unfolding pass_over count_ticks
inhibit effective alerts e =
    let p = pass_over effective alerts alerts (empty_pass e.rule_suppressed_counts) in
    let counted =
      count_ticks e.stale_tick_threshold p.fired p.counts effective e.rule_active_ticks in
    (
      p.result,
      record e { rule_active_ticks = counted.0; rule_suppressed_counts = p.counts },
      p.effects ++ counted.1,
    )

-- Without an override the rules are those of the engine, reloaded.
unfoldable pub apply_inhibition :
    List AlertLabel
    → Option (List InhibitRule)
    → ℕ
    → InhibitionEngine
    → InhibitResult × InhibitionEngine × List Effect
unfolding reload_rules effective_rules inhibit
apply_inhibition alerts rules_override now e = elim rules_override [
  | some rules ↦ inhibit (effective_rules now rules) alerts e
  | none ↦
      let loaded = reload_rules e in
      let out = inhibit (effective_rules now loaded.0.rules) alerts loaded.0 in
      (out.0, out.1, loaded.1 ++ out.2)
]

-- A label in a template text.
abbrev pub shown : Option String → String
shown none = "undefined"
shown (some s) = s

unfoldable pub alert_fingerprint : AlertLabel → String
unfolding lookup
alert_fingerprint alert = text_append (shown (lookup "agent" alert)) (
    text_append "|" (
      text_append (shown (lookup "session" alert)) (
        text_append "|" (
          text_append (shown (lookup "state" alert)) (
            text_append "|" (
              text_append (shown (lookup "reason_class" alert))
                (text_append "|" (shown (lookup "host" alert)))))))))

unfoldable pub deduplicate : List String → List AlertLabel → List AlertLabel
unfolding alert_fingerprint
deduplicate seen [] = []
deduplicate seen (alert ∷ later) =
    let fp = alert_fingerprint alert in
    let without = deduplicate seen later in
    let kept = alert ∷ deduplicate (fp ∷ seen) later in
    if any (λ s. str_eq s fp) seen then without else kept

unfoldable pub group_key : AlertLabel → String
unfolding lookup
group_key alert =
    text_append (shown (lookup "agent" alert)) (text_append "|" (shown (lookup "host" alert)))

unfoldable pub group : Store (List AlertLabel) → List AlertLabel → Store (List AlertLabel)
unfolding group_key lookup insert
group groups [] = groups
group groups (alert ∷ later) =
    group
      (insert (group_key alert) (or_else (lookup (group_key alert) groups) [] ++ (alert ∷ []))
        groups)
      later

abbrev pub required_labels : List String
required_labels = "agent" ∷ "session" ∷ "state" ∷ "reason_class" ∷ "host" ∷ []

pub data SchemaMismatch : Type 0 where
  missing_label : String → SchemaMismatch
  unknown_label : String → SchemaMismatch

abbrev pub is_filled : Option String → Bool
is_filled none = false
is_filled (some t) = not (str_eq t "")

abbrev pub missing_of : Option String → Option SchemaMismatch
missing_of none = none
missing_of (some l) = some (missing_label l)

abbrev pub unknown_of : Option (String × String) → Option SchemaMismatch
unknown_of none = none
unknown_of (some e) = some (unknown_label e.0)

-- The error that is thrown, if one is.
unfoldable pub validate_labels : List String → AlertLabel → Option SchemaMismatch
unfolding lookup
validate_labels valid_labels alert =
    elim (missing_of (find (λ l. not (is_filled (lookup l alert))) required_labels)) [
      | some err ↦ some err
      | none ↦
          unknown_of
            (find (λ (e : String × String). not (any (λ v. str_eq v e.0) valid_labels)) alert)
    ]

abbrev pub dispatch_blocking_states : List String
dispatch_blocking_states = "PARKED_PICKER" ∷ "PARKED_PICKER_STALE" ∷ "SESSION_DEAD" ∷ "CRASHED" ∷ []

unfoldable pub is_ready_for_dispatch : String → Bool
is_ready_for_dispatch agent_state = not (any (λ s. str_eq s agent_state) dispatch_blocking_states)
