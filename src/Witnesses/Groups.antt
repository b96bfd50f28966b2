-- ===== src/Witnesses/Groups.antt =====
-- Groups of alerts, parked pickers and nudges on small inputs.
use threadwork.Prelude.{
  ℕ, ◌+◌, ◌≤◌, ◌≡◌, refl, String, true, false, none, List, [], ◌∷◌, ◌++◌, arith, any, keep, length,
  inl, inr, str_eq, All,
}
use threadwork.Prelude.Store.{lookup}
use threadwork.Grouping.{
  AlertInput, GroupState, GroupMessage, GroupingEngine, ingest, tick, key_of, sort,
  rotate_dump_files, should_flush,
}
use threadwork.Grouping as G
use threadwork.Grouping.Owed.{is_report}
use threadwork.Grouping.Calls.{Call, ingests, marks, ticks, run, spares}
use threadwork.Grouping.Promptness.{new_member_reported}
use threadwork.Grouping.Keys.{IsKeyed}
use threadwork.Grouping.Quiet.{flush_pause}
use threadwork.Picker.{ParkedPickerClassifier, PickerSignature, readable, absent, reload_signatures}
use threadwork.Picker as P
use threadwork.Picker.Entry.{Look, looks, stale_for, stale_once}
use threadwork.Debounce.{DebounceConfig, NudgeDebounce, fired_row, try_nudge, nudge_row}
use threadwork.Debounce.Counts.{
  Event, recorded, tried, agent_of, reported, pending, events_conserved,
}
use threadwork.Debounce.Spacing.{nudges, window_holds}

abbrev stuck : String → AlertInput
stuck agent = record { agent = agent; state = "STUCK"; reason_class = "none"; severity = "WARNING" }

abbrev quiet_engine : GroupingEngine
quiet_engine = record {
  group_wait_sec = 30;
  group_interval_sec = 300;
  repeat_interval_sec = 1800;
  resolved_grace_sec = 60;
  groups = [];
}

abbrev later_calls : List (ℕ × Call)
later_calls =
    (105, ingests (stuck "eve")) ∷ (110, ticks) ∷ (120, marks "STUCK" "none" "WARNING" "eve") ∷ []

new_member_reported_example :
    let after = run later_calls (ingest (stuck "bob") 100 quiet_engine) in
    any (is_report (key_of (stuck "bob")) "bob") (after.1 ++ (tick 400 after.0).1) ≡ true
unfolding spares key_of lookup
new_member_reported_example =
    new_member_reported (stuck "bob") 100 later_calls 400 quiet_engine (inl refl) refl (omega arith)

abbrev new_group : GroupState
new_group = record {
  group_key = "STUCK::none::WARNING";
  state = "STUCK";
  reason_class = "none";
  severity = "WARNING";
  members = ("bob", G.new_member "bob" 100) ∷ [];
  created_at = 100;
  last_flushed_at = 0;
  has_been_flushed = false;
  has_pending_new_member = false;
  all_clear_at = none;
}

abbrev new_engine : GroupingEngine
new_engine = record quiet_engine { groups = ("STUCK::none::WARNING", new_group) ∷ [] }

flush_pause_example :
    any
      (λ (m : GroupMessage). str_eq m.group_key "STUCK::none::WARNING")
      (run
        ((150, ingests (stuck "eve")) ∷ (200, ticks) ∷ (429, ticks) ∷ [])
        (tick 130 new_engine).0).1
    ≡ false
unfolding IsKeyed lookup spares should_flush
flush_pause_example =
    flush_pause "STUCK::none::WARNING" "bob" 130 new_group
      ((150, ingests (stuck "eve")) ∷ (200, ticks) ∷ (429, ticks) ∷ []) new_engine (refl, refl, tt)
      refl (G.new_member "bob" 100, refl, refl, refl) refl
      ((omega arith, refl), ((omega arith, refl), ((omega arith, refl), tt)))

abbrev allow : PickerSignature
allow = record {
  id = "allow";
  picker_subtype = P.tool_permission_prompt;
  patterns = "Allow the following tool" ∷ [];
}

abbrev classifier : ParkedPickerClassifier
classifier = record {
  signatures_file = readable 7 (allow ∷ []);
  stale_ttl_sec = 3601;
  signatures = allow ∷ [];
  signatures_mtime = 7;
  agent_states = [];
}

abbrev look_at : ℕ → Look
look_at now = record { who = "bob"; pane = "work\nAllow the following tool\n[Y/n]"; at = now }

abbrev three_looks : List Look
three_looks = look_at 1000 ∷ look_at 4000000 ∷ look_at 5000000 ∷ []

abbrev uncut : String → String
uncut s = s

stale_once_example : length (keep (stale_for "bob") (looks uncut three_looks classifier).0) ≤ 1
unfolding P.has_active_prompt P.last_lines
stale_once_example = stale_once uncut "bob" three_looks classifier refl

abbrev config : DebounceConfig
config = record { window_sec = 90; enabled = true }

abbrev nudged_table : NudgeDebounce
nudged_table = ("bob", fired_row 1000000 "normal") ∷ []

-- The last nudge was long ago.
abbrev early_table : NudgeDebounce
early_table = ("bob", fired_row 5000 "low") ∷ []

abbrev bob_events : List Event
bob_events = recorded "bob" "low" ∷ tried "bob" "normal" 1050000 ∷ tried "eve" "urgent" 1060000 ∷ []

events_conserved_example :
    let out = reported config "bob" bob_events nudged_table in
    out.0 + pending "bob" out.1
    ≡ pending "bob" nudged_table + length (keep (λ e. str_eq (agent_of e) "bob") bob_events)
events_conserved_example = events_conserved config "bob" bob_events nudged_table refl

window_holds_example :
    All
      (λ fired. fired ≡ false)
      (nudges config "bob" bob_events (try_nudge config "bob" "normal" 1000000 early_table).1)
unfolding lookup try_nudge nudge_row
window_holds_example =
    window_holds config "bob" "normal" 1000000 bob_events early_table refl (omega arith) refl
      (tt, (inr (refl, omega arith), (inl refl, tt)))
