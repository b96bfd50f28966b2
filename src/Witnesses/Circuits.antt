-- ===== src/Witnesses/Circuits.antt =====
-- The theorems on circuit breakers and restart caps, at concrete sessions and trackers.
use threadwork.Prelude.{◌≡◌, refl, true, none, some, [], ◌∷◌, ◌++◌, arith, ltb, length, keep}
use threadwork.Prelude.Store.{lookup, missing}
use threadwork.Sessions.{Session, Sessions, closed, open_circuit}
use threadwork.Sessions.Circuit.{fault, half, close, recovered, run, AllSound, run-AllSound}
use threadwork.Restart.{
  RestartTracker, TrackerData, running, on_startup, in_window, ChildRestartCap, child_state,
  is_capped, on_child_restart,
}
use threadwork.Restart.Count.{startup_exact, startups}
use threadwork.Restart.Child.{capped_until_reset, restart}
use threadwork.Restart.Child as Child

abbrev calm : Session
calm = record {
  session_id = some "s1";
  last_seen_at = 1;
  state = "idle";
  state_changed_at = none;
  state_source = none;
  current_task_id = none;
  current_tool = none;
  claude_pid = none;
  circuit_state = some closed;
  fault_count = some 0;
  last_fault_at = none;
  last_fault_type = none;
  circuit_opened_at = none;
  cooldown_until = none;
}

abbrev tripped : Session
tripped = record calm {
  circuit_state = some open_circuit;
  fault_count = some 3;
  cooldown_until = some 400;
}

abbrev two_agents : Sessions
two_agents = ("bob", calm) ∷ ("cy", tripped) ∷ []

run-AllSound_example :
    AllSound
      (run (fault 10 "bob" "stale" ∷ half 20 "bob" ∷ close "bob" ∷ recovered (some "bob") ∷ []) [])
run-AllSound_example =
    run-AllSound
      (fault 10 "bob" "stale" ∷ half 20 "bob" ∷ close "bob" ∷ recovered (some "bob") ∷ []) []
      (record { at = λ who r e. unfold lookup in cc })

abbrev new_tracker : RestartTracker
new_tracker = record { service = "nudge"; max_r = 2; max_t_sec = 60; file = missing }

startup_exact_example :
    (on_startup 40 (startups (10 ∷ 20 ∷ []) new_tracker)).0.capped
    ≡ ltb new_tracker.max_r
        (length (keep (in_window new_tracker.max_t_sec 40) ((10 ∷ 20 ∷ []) ++ (40 ∷ []))))
startup_exact_example =
    startup_exact 0 40 (10 ∷ 20 ∷ []) new_tracker refl (omega arith, (omega arith, tt))
      (omega arith)

abbrev two_starts : TrackerData
two_starts = record {
  service = "nudge";
  restart_timestamps_unix = 10 ∷ 20 ∷ [];
  max_r = 2;
  max_t_sec = 60;
  last_action = running;
  last_action_at = 20;
}

abbrev one_capped : ChildRestartCap
one_capped = record {
  max_r = 2;
  max_t_sec = 60;
  state = ("tail", record { timestamps = 1 ∷ 2 ∷ 3 ∷ []; capped = true }) ∷ [];
}

capped_until_reset_example :
    let es = restart "tail" 500 ∷ restart "bot" 510 ∷ [] in
    let before = length (child_state "tail" one_capped).timestamps in
    (is_capped "tail" (Child.run es one_capped) ≡ true)
    × ((on_child_restart "tail" 600 (Child.run es one_capped)).0
        ≡ record { capped = true; count = before })
unfolding is_capped lookup
capped_until_reset_example =
    capped_until_reset (restart "tail" 500 ∷ restart "bot" 510 ∷ []) "tail" 600 one_capped refl refl
