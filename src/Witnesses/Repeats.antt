-- ===== src/Witnesses/Repeats.antt =====
-- The theorems on loops and deduplication, at concrete agents.
use threadwork.Prelude.{◌≡◌, true, false, none, some, List, [], ◌∷◌, arith, All, refl}
use threadwork.Prelude.Store.{missing, saved, lookup, load}
use threadwork.Dedup.{
  AlertInput, DedupEntry, DedupEngine, stale_entries, get_cooldown_sec, fingerprint_of,
}
use threadwork.Dedup.Windows.{repeats_suppressed}
use threadwork.Dedup.Uptime.{Raise, sent_of, sent_early}
use threadwork.Loops.{
  HistoryEntry, LoopDetector, AgentLoopState, TickInput, consecutive_run, has_majority, tick,
  loop_state, hash_tick, add_to_history, hashes,
}
use threadwork.Loops as L
use threadwork.Loops.Relapse.{relapse, entry_at}

abbrev detector : LoopDetector
detector = record {
  state_file = missing;
  consecutive_n = 6;
  window_size = 4;
  majority_threshold = 2;
}

abbrev working : TickInput
working = record {
  classifier_state = L.alive;
  status_text = some "compiling";
  tool_call_signature = none;
  pane_bottom_line = none;
  has_transcript_entry = none;
  has_write_status = none;
}

abbrev in_loop : AgentLoopState
in_loop = record {
  history = entry_at 10 "h" ∷ entry_at 20 "h" ∷ entry_at 30 "h" ∷ entry_at 40 "h" ∷ [];
  is_loop = true;
  loop_triggering_hash = some "h";
}

relapse_example :
    ((hash_tick 50 "x" detector in_loop).0
      ≡ record { is_loop = false; hash = some "x"; recovery = true; skipped = false })
    × ((hash_tick 60 "y" detector (hash_tick 50 "x" detector in_loop).1).0.is_loop ≡ true)
unfolding add_to_history hashes
relapse_example =
    relapse 50 60 "x" "y" "h" detector in_loop refl refl refl (omega arith) (omega arith)

abbrev silent : AlertInput
silent = record {
  agent_name = "bob";
  state = "STUCK";
  reason_class = "LOG_STALE";
  full_reason_text = none;
}

-- Sent an hour after the start of the process before this one.
abbrev sent_before : DedupEntry
sent_before = record {
  fingerprint = "fp";
  agent_name = "bob";
  state = "STUCK";
  last_emit_at_wallclock = 5000;
  last_emit_at_monotonic = 3600000;
  suppress_count = 0;
  first_emit_at = 5000;
}

abbrev restarted : DedupEngine
restarted = record {
  dedup_file = saved (("fp", sent_before) ∷ []);
  process_start_ms = 5010000;
  env_cooldown = none;
  cooldown_override = none;
}

abbrev two_raises : List Raise
two_raises = record { at = 5030; at_ms = 5030000 } ∷ record { at = 5060; at_ms = 5060000 } ∷ []

sent_early_example :
    All (λ was_sent. was_sent ≡ true) (sent_of (λ x. "fp") silent two_raises restarted)
unfolding stale_entries lookup load get_cooldown_sec fingerprint_of
sent_early_example =
    sent_early (λ x. "fp") silent two_raises restarted sent_before refl refl
      ((refl, refl, refl), ((refl, refl, refl), tt))

abbrev same_process : DedupEngine
same_process = record restarted { process_start_ms = 1000000 }

repeats_suppressed_example :
    All (λ was_sent. was_sent ≡ false) (sent_of (λ x. "fp") silent two_raises same_process)
unfolding stale_entries lookup load get_cooldown_sec fingerprint_of
repeats_suppressed_example =
    repeats_suppressed (λ x. "fp") silent two_raises same_process sent_before refl refl
      ((refl, refl, refl), ((refl, refl, refl), tt))
