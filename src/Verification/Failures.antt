-- ===== src/Verification/Failures.antt =====
-- verification/failure-classification.ts: classifyFailure, for signals of their declared type.
use threadwork.Prelude.{
  ℕ, String, Bool, true, false, ◌||◌, Option, none, some, List, [], ◌∷◌, leb, str_eq, any,
  if◌then◌else◌, or_else,
}

pub data FailureClass : Type 0 where
  verification_failure test_failure liveness_timeout blocked_dependency : FailureClass
  infrastructure_transient contract_scope_conformance resource_budget_exhaustion : FailureClass
  correctness_adversarial_finding unknown_failure : FailureClass

-- A severity as its column has it: one of the four, or another text of a newer taxonomy.
pub data FailureSeverity : Type 0 where
  low medium high critical : FailureSeverity
  other_severity : String → FailureSeverity

pub data FailureTransience : Type 0 where
  transient permanent unknown_transience : FailureTransience

pub data FailureDomain : Type 0 where
  agent human external_api upstream_task infrastructure system unknown_domain : FailureDomain

pub data BlockedOn : Type 0 where
  on_human on_external_api on_upstream_task on_agent : BlockedOn

pub record SignalContext : Type 0 where
  pub task_id : Option ℕ
  pub agent : Option String
  pub summary : Option String

pub data RawFailureSignal : Type 0 where
  verify_check : String → SignalContext → RawFailureSignal
  test_run : SignalContext → RawFailureSignal
  verify_idle_count : ℕ → SignalContext → RawFailureSignal
  watchdog_fault : String → SignalContext → RawFailureSignal
  watchdog_blocked : Option BlockedOn → SignalContext → RawFailureSignal
  watchdog_dead_session : SignalContext → RawFailureSignal
  all_paths_failed : Option String → Option String → Option String → RawFailureSignal
  adversarial_finding : String → String → Option String → RawFailureSignal
  manual : SignalContext → RawFailureSignal

pub record ClassificationQuad : Type 0 where
  pub failure_class : FailureClass
  pub severity : FailureSeverity
  pub transience : FailureTransience
  pub domain : FailureDomain

pub record FailureClassification : Type 0 where
  pub quad : ClassificationQuad
  pub open quad use *
  pub signal_source : String
  pub source_ref : Option String
  pub task_id : Option ℕ
  pub agent : Option String
  pub summary : String

abbrev pub idle_count_stagnation_threshold : ℕ
idle_count_stagnation_threshold = 3

abbrev quad_of :
    FailureClass → FailureSeverity → FailureTransience → FailureDomain → ClassificationQuad
quad_of failure_class severity transience domain = record {
  failure_class = failure_class;
  severity = severity;
  transience = transience;
  domain = domain;
}

abbrev pub unknown_quad : ClassificationQuad
unknown_quad = quad_of unknown_failure medium unknown_transience unknown_domain

abbrev pub contract_scope_categories : List String
contract_scope_categories =
    "scope_conformance" ∷ "verifiability" ∷ "ears_conformance" ∷ "traceability" ∷ "classifier_rigor"
    ∷ "consumption_contract" ∷ []

abbrev pub map_severity_hint : String → FailureSeverity
map_severity_hint hint = if str_eq hint "HIGH" then high else medium

abbrev pub finding_class : String → FailureClass
finding_class category =
    if str_eq category "correctness"
    then correctness_adversarial_finding
    else if any (λ c. str_eq c category) contract_scope_categories
    then contract_scope_conformance
    else unknown_failure

abbrev pub fault_quad : String → ClassificationQuad
fault_quad fault_type =
    if str_eq fault_type "crash"
    then quad_of liveness_timeout critical transient agent
    else if str_eq fault_type "timeout"
    then quad_of liveness_timeout high transient agent
    else unknown_quad

abbrev pub blocked_quad : Option BlockedOn → ClassificationQuad
blocked_quad none = quad_of blocked_dependency low transient unknown_domain
blocked_quad (some on_human) = quad_of blocked_dependency low transient human
blocked_quad (some on_external_api) = quad_of blocked_dependency medium transient external_api
blocked_quad (some on_upstream_task) = quad_of blocked_dependency low transient upstream_task
blocked_quad (some on_agent) = quad_of blocked_dependency low transient agent

-- The switch over the source.
unfoldable pub quad : RawFailureSignal → ClassificationQuad
quad (verify_check check_result_id c) = quad_of verification_failure medium transient agent
quad (test_run c) = quad_of test_failure high transient agent
quad (verify_idle_count idle_count c) =
    if leb idle_count_stagnation_threshold idle_count
    then quad_of resource_budget_exhaustion medium permanent agent
    else unknown_quad
quad (watchdog_fault fault_type c) = fault_quad fault_type
quad (watchdog_blocked blocked_on c) = blocked_quad blocked_on
quad (watchdog_dead_session c) = quad_of liveness_timeout critical permanent agent
quad (all_paths_failed who summary source_ref) =
    quad_of infrastructure_transient critical transient infrastructure
quad (adversarial_finding category severity_hint summary) =
    quad_of (finding_class category) (map_severity_hint severity_hint) permanent system
quad (manual c) = unknown_quad

unfoldable pub source_of : RawFailureSignal → String
source_of (verify_check check_result_id c) = "verify_check"
source_of (test_run c) = "test_run"
source_of (verify_idle_count idle_count c) = "verify_idle_count"
source_of (watchdog_fault fault_type c) = "watchdog_fault"
source_of (watchdog_blocked blocked_on c) = "watchdog_blocked"
source_of (watchdog_dead_session c) = "watchdog_dead_session"
source_of (all_paths_failed who summary source_ref) = "escalation_bridge_all_paths_failed"
source_of (adversarial_finding category severity_hint summary) = "adversarial_finding"
source_of (manual c) = "manual"

unfoldable pub source_ref_of : RawFailureSignal → Option String
source_ref_of (verify_check check_result_id c) = some check_result_id
source_ref_of (test_run c) = none
source_ref_of (verify_idle_count idle_count c) = none
source_ref_of (watchdog_fault fault_type c) = none
source_ref_of (watchdog_blocked blocked_on c) = none
source_ref_of (watchdog_dead_session c) = none
source_ref_of (all_paths_failed who summary source_ref) = source_ref
source_ref_of (adversarial_finding category severity_hint summary) = none
source_ref_of (manual c) = none

-- The task, the agent and the summary, where the signal has them.
unfoldable pub context_of : RawFailureSignal → SignalContext
context_of (verify_check check_result_id c) = c
context_of (test_run c) = c
context_of (verify_idle_count idle_count c) = c
context_of (watchdog_fault fault_type c) = c
context_of (watchdog_blocked blocked_on c) = c
context_of (watchdog_dead_session c) = c
context_of (all_paths_failed who summary source_ref) = record {
  task_id = none;
  agent = who;
  summary = summary;
}
context_of (adversarial_finding category severity_hint summary) = record {
  task_id = none;
  agent = none;
  summary = summary;
}
context_of (manual c) = c

unfoldable pub classify_failure : RawFailureSignal → FailureClassification
unfolding quad source_of source_ref_of context_of
classify_failure signal = record {
  quad = quad signal;
  signal_source = source_of signal;
  source_ref = source_ref_of signal;
  task_id = (context_of signal).task_id;
  agent = (context_of signal).agent;
  summary = or_else (context_of signal).summary "";
}

abbrev is_adversarial : FailureClass → Bool
is_adversarial verification_failure = false
is_adversarial test_failure = false
is_adversarial liveness_timeout = false
is_adversarial blocked_dependency = false
is_adversarial infrastructure_transient = false
is_adversarial contract_scope_conformance = false
is_adversarial resource_budget_exhaustion = false
is_adversarial correctness_adversarial_finding = true
is_adversarial unknown_failure = false

abbrev pub is_severe : FailureSeverity → Bool
is_severe low = false
is_severe medium = false
is_severe high = true
is_severe critical = true
is_severe (other_severity text) = false

-- isCrossFamilyReviewMandatory of verification/cross-family-critique.ts
unfoldable pub is_cross_family_review_mandatory : ClassificationQuad → Bool
is_cross_family_review_mandatory c = is_adversarial c.failure_class || is_severe c.severity
