-- ===== src/Escalation/Parking.antt =====
-- The timer of an episode while the agent is parked (tick of escalation-bridge/index.ts).
use threadwork.Prelude.{
  ℕ, ◌+◌, ◌≤◌, ◌≡◌, refl, String, true, false, ◌&&◌, some, List, [], ◌∷◌, arith, every, ap, ◌∙◌,
  Bool-cases, inl, inr,
}
use threadwork.Escalation.{
  Host, AgentTickInput, AgentEscalationState, EscalationBridge, agent_state, save_state, is_enabled,
  open_episode, due_step, act, stuck_tick, tick, is_parked_state, is_stuck, execute_with_fallback,
  ClassifierState, stuck, alive, idle, watchdog_dead, loop, parked_picker, parked_picker_stale,
}
use threadwork.Escalation.Climb.{Beat, ticks, acted, acted-reach_out, state-save}

-- An agent in an episode since `start`, at step 0, on a bridge that acts for it.
pub record Waits (who : String) (delay start : ℕ) (b : EscalationBridge) : Type 0 where
  pub on : (b.lock_acquired && is_enabled who b) ≡ true
  pub episode : (agent_state who b).current_episode_start_unix ≡ some start
  pub step : (agent_state who b).escalation_step ≡ 0
  pub delayed : b.esc1_delay_sec ≡ delay

save-Waits :
    (who : String) (delay start : ℕ) (b : EscalationBridge)
    → Waits who delay start b
    → Waits who delay start (save_state who (agent_state who b) b)
save-Waits who delay start b w = record {
  on = unfold save_state is_enabled in w.on;
  episode =
      ap (λ (s : AgentEscalationState). s.current_episode_start_unix)
        (state-save who (agent_state who b) b)
      ∙ w.episode;
  step =
      ap (λ (s : AgentEscalationState). s.escalation_step) (state-save who (agent_state who b) b)
      ∙ w.step;
  delayed = unfold save_state in w.delayed;
}

parked_tick :
    (h : Host) (who : String) (input : AgentTickInput) (now delay start : ℕ) (b : EscalationBridge)
    → Waits who delay start b
    → is_parked_state input.classifier_state ≡ true
    → Waits who delay start (tick h who input now b).bridge
unfolding tick
parked_tick h who input now delay start b w parked =
    rw (w.on, parked) (save-Waits who delay start b w)

parked_ticks :
    (who : String) (ps : List Beat) (delay start : ℕ) (b : EscalationBridge)
    → Waits who delay start b
    → every (λ p. is_parked_state p.input.classifier_state) ps ≡ true
    → Waits who delay start (ticks who ps b).1
unfolding ticks
parked_ticks who [] delay start b w e = w
parked_ticks who (p ∷ ps) delay start b w e =
    elim (Bool-cases (is_parked_state p.input.classifier_state)) [
      | inr bad ↦ let no : false ≡ true = rw bad at e in cc
      | inl parked ↦
          parked_ticks who ps delay start (tick p.host who p.input p.at b).bridge
            (parked_tick p.host who p.input p.at delay start b w parked) (rw parked at e)
    ]

stuck_free : (c : ClassifierState) → is_stuck c ≡ true → is_parked_state c ≡ false
stuck_free stuck e = refl
stuck_free alive e = refl
stuck_free idle e = refl
stuck_free watchdog_dead e = refl
stuck_free loop e = refl
stuck_free parked_picker e = cc
stuck_free parked_picker_stale e = cc

reopened :
    (now start : ℕ) (s : AgentEscalationState)
    → s.current_episode_start_unix ≡ some start
    → open_episode now s ≡ (s, start)
unfolding open_episode
reopened now start s e = rw e refl

due_nudge :
    (b : EscalationBridge) (input : AgentTickInput) (now start step : ℕ)
    → step ≡ 0
    → (start + b.esc1_delay_sec) ≤ now
    → due_step b input now start step ≡ some 1
unfolding due_step
due_nudge b input now start step e le = ground (arith, e, le)

act_nudge :
    (h : Host) (who : String) (now : ℕ) (s : AgentEscalationState) (b : EscalationBridge)
    → h.audit_ok ≡ true
    → acted (act h who now 1 s b).effects ≡ 1 ∷ []
unfolding act execute_with_fallback
act_nudge h who now s b e = rw (act, e) (ap (◌∷◌ 1) (acted-reach_out h 1))

stuck_nudge :
    (h : Host) (who : String) (input : AgentTickInput) (now delay start : ℕ) (b : EscalationBridge)
    → Waits who delay start b
    → (start + delay) ≤ now
    → h.audit_ok ≡ true
    → acted (stuck_tick h who input now b).effects ≡ 1 ∷ []
unfolding stuck_tick
stuck_nudge h who input now delay start b w le e =
    let again = reopened now start (agent_state who b) w.episode in
    let due =
      due_nudge b input now start (agent_state who b).escalation_step w.step
        (omega (arith, le, w.delayed)) in
    rw (stuck_tick, again, due) (act_nudge h who now (open_episode now (agent_state who b)).0 b e)

-- The time at a parked picker counts: an agent in an episode that has not been nudged is nudged as
-- soon as it is seen stuck at least the first delay after the start of the episode, however long it
-- was parked since, if the audit log can be written.
pub parked_time_counts :
    (who : String) (ps : List Beat) (h : Host) (input : AgentTickInput) (now delay start : ℕ)
    (b : EscalationBridge)
    → Waits who delay start b
    → every (λ p. is_parked_state p.input.classifier_state) ps ≡ true
    → is_stuck input.classifier_state ≡ true
    → (start + delay) ≤ now
    → h.audit_ok ≡ true
    → acted (tick h who input now (ticks who ps b).1).effects ≡ 1 ∷ []
unfolding tick
parked_time_counts who ps h input now delay start b w parked busy le e =
    let w' = parked_ticks who ps delay start b w parked in
    let free : is_parked_state input.classifier_state ≡ false =
      stuck_free input.classifier_state busy in
    rw (w'.on, free, busy) (stuck_nudge h who input now delay start (ticks who ps b).1 w' le e)
