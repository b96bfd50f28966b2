-- ===== src/Loops/Relapse.antt =====
-- After a recovery (tick of loop-detector/index.ts): the window still holds the loop.
use threadwork.Prelude.{
  ℕ, ◌≤◌, ◌≡◌, refl, String, true, false, Option, none, some, List, if◌then◌else◌, inl, inr,
  Option-cases, str_eq, ap, ◌∙◌,
}
use threadwork.Loops.{
  HistoryEntry, AgentLoopState, TickResult, LoopDetector, add_to_history, take_last, loop_tick,
  free_tick, hash_tick, check_loop_trigger, consecutive_run, hashes, reverse,
}
use threadwork.Loops.Trigger.{count_of, has_majority-count}

abbrev pub entry_at : ℕ → String → HistoryEntry
entry_at now h = record { tick_unix = now; hash = some h; gap_reason = none }

-- A hash that stands often enough in the window of a history triggers, whatever the run at its end.
trigger-count :
    (d : LoopDetector) (history : List HistoryEntry) (t : String)
    → 1 ≤ d.majority_threshold
    → d.majority_threshold ≤ count_of t (hashes (take_last d.window_size history))
    → check_loop_trigger d history ≡ true
unfolding check_loop_trigger
trigger-count d history t pos le =
    elim (Option-cases (consecutive_run d.consecutive_n 0 none (reverse history))) [
      | inl e ↦
          rw (check_loop_trigger, e)
            (has_majority-count d.majority_threshold t (hashes (take_last d.window_size history))
              pos le)
      | inr (h, e) ↦ rw (check_loop_trigger, e) refl
    ]

free_tick-found :
    (h : String) (history : List HistoryEntry) (d : LoopDetector) (s : AgentLoopState)
    → check_loop_trigger d history ≡ true
    → (free_tick h history d s).0.is_loop ≡ true
unfolding free_tick
free_tick-found h history d s e = rw e refl

recovered :
    (now : ℕ) (x t : String) (d : LoopDetector) (s : AgentLoopState)
    → s.is_loop ≡ true
    → s.loop_triggering_hash ≡ some t
    → str_eq x t ≡ false
    → hash_tick now x d s ≡ (
      record { is_loop = false; hash = some x; recovery = true; skipped = false },
      record {
        history = add_to_history d.window_size s.history (entry_at now x);
        is_loop = false;
        loop_triggering_hash = none;
      },
    )
unfolding hash_tick loop_tick
recovered now x t d s e f g =
    ap (λ c. if c then of_hash s.loop_triggering_hash else free_tick x history d s) e
    ∙ ap of_hash f
    ∙ (unfold loop_tick in rw g refl)
  where
    history : List HistoryEntry
    history = add_to_history d.window_size s.history (entry_at now x)

    of_hash : Option String → TickResult × AgentLoopState
    of_hash none = free_tick x history d s
    of_hash (some t) = loop_tick x history t

-- A recovery does not last where the loop still fills the window: an agent in a loop of the hash t,
-- seen with another hash, recovers; seen again, with any hash, it is reported in a loop at once if t
-- stands in the window of its history as often as the majority asks, although the agent has moved on.
pub relapse :
    (now later : ℕ) (x y t : String) (d : LoopDetector) (s : AgentLoopState)
    → s.is_loop ≡ true
    → s.loop_triggering_hash ≡ some t
    → str_eq x t ≡ false
    → 1 ≤ d.majority_threshold
    → d.majority_threshold
      ≤ count_of t (
          hashes (
            take_last d.window_size (
              add_to_history d.window_size
                (add_to_history d.window_size s.history (entry_at now x))
                (entry_at later y))))
    → ((hash_tick now x d s).0
        ≡ record { is_loop = false; hash = some x; recovery = true; skipped = false })
      × ((hash_tick later y d (hash_tick now x d s).1).0.is_loop ≡ true)
relapse now later x y t d s e f g pos often =
    let gone = recovered now x t d s e f g in
    let history = add_to_history d.window_size s.history (entry_at now x) in
    let s1 : AgentLoopState = record {
      history = history;
      is_loop = false;
      loop_triggering_hash = none;
    } in
    let history2 = add_to_history d.window_size history (entry_at later y) in
    rw gone (
      refl,
      unfold hash_tick in free_tick-found y history2 d s1 (trigger-count d history2 t pos often),
    )
