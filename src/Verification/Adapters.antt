-- ===== src/Verification/Adapters.antt =====
-- The adapters of verification/failure-classification.ts: from what verify.ts, the watchdog, the
-- escalation bridge and a verifier observe to a signal, or none where nothing has failed. A number of
-- a summary is written by the host. The name of a verifier, which no classification reads, is left out.
use Prim.Native.String.{◌++◌ as text_append}
use threadwork.Prelude.{ℕ, String, Bool, Option, none, some, if◌then◌else◌, ltb, str_eq}
use threadwork.Verification.Failures.{
  RawFailureSignal, verify_check, test_run, verify_idle_count, watchdog_fault, watchdog_blocked,
  watchdog_dead_session, all_paths_failed, adversarial_finding, SignalContext, BlockedOn,
  idle_count_stagnation_threshold,
}

pub record VerifyCheckLike : Type 0 where
  pub id : String
  pub verified : Bool
  pub description : Option String
  pub evidence : Option String
  pub task_id : Option ℕ
  pub agent : Option String
  pub summary : Option String

pub record TestRunLike : Type 0 where
  pub tests_pass : Bool
  pub test_output : Option String
  pub task_id : Option ℕ
  pub agent : Option String
  pub summary : Option String

pub record IdleCountLike : Type 0 where
  pub idle_count : ℕ
  pub context : SignalContext

-- The first of two texts that is there.
abbrev pub either_text : Option String → Option String → Option String
either_text none other = other
either_text (some text) other = some text

abbrev context_with : Option ℕ → Option String → Option String → SignalContext
context_with task_id agent summary = record { task_id = task_id; agent = agent; summary = summary }

-- A check of SG-13 is left to the test run.
unfoldable pub from_verify_check_result : VerifyCheckLike → Option RawFailureSignal
from_verify_check_result check =
    if str_eq check.id "SG-13"
    then none
    else if check.verified
    then none
    else some (
        verify_check check.id (
          context_with check.task_id check.agent
            (either_text check.summary (either_text check.evidence check.description))))

unfoldable pub from_test_run : TestRunLike → Option RawFailureSignal
from_test_run s =
    if s.tests_pass
    then none
    else some (test_run (context_with s.task_id s.agent (either_text s.summary s.test_output)))

unfoldable pub from_idle_count : IdleCountLike → Option RawFailureSignal
from_idle_count s =
    if ltb s.idle_count idle_count_stagnation_threshold
    then none
    else some (verify_idle_count s.idle_count s.context)

unfoldable pub from_watchdog_fault : Option String → String → SignalContext → RawFailureSignal
from_watchdog_fault who fault_type ctx =
    watchdog_fault fault_type (context_with ctx.task_id (either_text ctx.agent who) ctx.summary)

unfoldable pub from_watchdog_blocked : Option BlockedOn → SignalContext → RawFailureSignal
from_watchdog_blocked blocked_on ctx = watchdog_blocked blocked_on ctx

unfoldable pub from_watchdog_dead_session : SignalContext → RawFailureSignal
from_watchdog_dead_session ctx = watchdog_dead_session ctx

unfoldable pub from_all_paths_failed : (ℕ → String) → String → ℕ → String → RawFailureSignal
from_all_paths_failed number_text who step err =
    let at = number_text step in
    all_paths_failed (some who)
      (some (
        text_append "escalation bridge failed: agent="
          (text_append who (text_append " step=" (text_append at (text_append " err=" err))))))
      (some (text_append "step-" at))

unfoldable pub from_adversarial_finding : String → String → String → RawFailureSignal
from_adversarial_finding category severity_hint summary =
    adversarial_finding category severity_hint (some summary)
