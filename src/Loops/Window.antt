-- ===== src/Loops/Window.antt =====
-- The rolling history of the loop detector (addToHistory of loop-detector/index.ts).
use threadwork.Prelude.{
  ℕ, ◌-◌, ◌≤◌, ◌≡◌, refl, String, true, false, none, some, List, [], ◌∷◌, ◌++◌, ltb, or_else, arith,
  str_eq, inl, inr, Bool-cases, length, length-drop, Option-cases,
}
use threadwork.Prelude.Store.{load, lookup-insert_self}
use threadwork.Loops.{
  HistoryEntry, AgentLoopState, TickInput, LoopDetector, add_to_history, gap_tick, loop_tick,
  free_tick, hash_tick, seen_tick, tick, loop_state, is_excluded,
}

abbrev entry_at : ℕ → String → HistoryEntry
entry_at now h = record { tick_unix = now; hash = some h; gap_reason = none }

length-add_to_history :
    (w : ℕ) (history : List HistoryEntry) (entry : HistoryEntry)
    → length (add_to_history w history entry) ≤ w
unfolding add_to_history
length-add_to_history w history entry =
    let updated = history ++ (entry ∷ []) in
    elim (Bool-cases (ltb w (length updated))) [
      | inl over ↦
          let cut = length-drop (length updated - w) updated in rw over (omega (arith, cut))
      | inr fits ↦ rw fits (ground (arith, fits))
    ]

history-loop_tick :
    (h t : String) (history : List HistoryEntry) → (loop_tick h history t).1.history ≡ history
unfolding loop_tick
history-loop_tick h t history = elim (Bool-cases (str_eq h t)) [
  | inl e ↦ rw e refl
  | inr e ↦ rw e refl
]

history-hash_tick :
    (now : ℕ) (h : String) (d : LoopDetector) (s : AgentLoopState)
    → length (hash_tick now h d s).1.history ≤ d.window_size
unfolding hash_tick free_tick
history-hash_tick now h d s = elim (Bool-cases s.is_loop) [
  | inr e ↦ rw e (length-add_to_history d.window_size s.history (entry_at now h))
  | inl e ↦ elim (Option-cases s.loop_triggering_hash) [
    | inl f ↦ rw (e, f) (length-add_to_history d.window_size s.history (entry_at now h))
    | inr (t, f) ↦
        rw (e, f)
          (rw (history-loop_tick h t (add_to_history d.window_size s.history (entry_at now h)))
            (length-add_to_history d.window_size s.history (entry_at now h)))
  ]
]

history-seen_tick :
    (sha256 trim : String → String) (input : TickInput) (now : ℕ) (d : LoopDetector)
    (s : AgentLoopState)
    → length (seen_tick sha256 trim input now d s).1.history ≤ d.window_size
unfolding seen_tick gap_tick
history-seen_tick sha256 trim input now d s =
    elim (Bool-cases (or_else input.has_transcript_entry true)) [
      | inr e ↦ rw e (length-add_to_history d.window_size s.history _)
      | inl e ↦ elim (Bool-cases (or_else input.has_write_status true)) [
        | inr f ↦ rw (e, f) (length-add_to_history d.window_size s.history _)
        | inl f ↦ rw (e, f) (history-hash_tick now _ d s)
      ]
    ]

-- Whatever the file held before, the history that a tick saves for an agent that is not excluded has
-- at most as many entries as the window.
pub tick_bounded :
    (sha256 trim : String → String) (who : String) (input : TickInput) (now : ℕ) (d : LoopDetector)
    → is_excluded input.classifier_state ≡ false
    → length (loop_state who (tick sha256 trim who input now d).1).history ≤ d.window_size
unfolding tick loop_state load
tick_bounded sha256 trim who input now d e =
    let s = seen_tick sha256 trim input now d (loop_state who d) in
    rw (e, lookup-insert_self who s.1 (load d.state_file))
      (history-seen_tick sha256 trim input now d (loop_state who d))
