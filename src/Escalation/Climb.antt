-- ===== src/Escalation/Climb.antt =====
-- The steps of one episode of the escalation bridge (tick of escalation-bridge/index.ts).
use mathlib.Core.Path.{subst, sym}
use threadwork.Prelude.{
  ℕ, zero, suc, ◌≤◌, ◌≡◌, refl, String, Bool, true, false, ◌&&◌, ◌||◌, none, some, List, [], ◌∷◌,
  ◌++◌, if◌then◌else◌, arith, every, inl, inr, ◌⊎◌, Bool-cases, Option-cases, ap, ◌∙◌, is_some,
}
use threadwork.Prelude.Store.{load, lookup-insert_self}
use threadwork.Escalation.{
  Host, Effect, mcp, sqlite_fallback, audit, call, fallback, critical_telegram, failure_classified,
  execute_with_fallback, reach_out, try_attempts, try_fallback, all_paths_failed, EscalationBridge,
  AgentEscalationState, AgentTickInput, Ticked, agent_state, save_state, open_episode, due_step,
  act, stuck_tick, tick, is_parked_state, is_stuck, is_enabled, stepped,
}

-- The steps that were executed: each begins with one audit entry of the first method.
abbrev pub acted : List Effect → List ℕ
acted [] = []
acted (audit step mcp ∷ es) = step ∷ acted es
acted (audit step sqlite_fallback ∷ es) = acted es
acted (call step i ∷ es) = acted es
acted (fallback step ∷ es) = acted es
acted (critical_telegram step ∷ es) = acted es
acted (failure_classified step ∷ es) = acted es

acted-append : (xs ys : List Effect) → acted (xs ++ ys) ≡ acted xs ++ acted ys
acted-append [] ys = refl
acted-append (audit step mcp ∷ es) ys = ap (◌∷◌ step) (acted-append es ys)
acted-append (audit step sqlite_fallback ∷ es) ys = acted-append es ys
acted-append (call step i ∷ es) ys = acted-append es ys
acted-append (fallback step ∷ es) ys = acted-append es ys
acted-append (critical_telegram step ∷ es) ys = acted-append es ys
acted-append (failure_classified step ∷ es) ys = acted-append es ys

acted-attempts : (h : Host) (step i n : ℕ) → acted (try_attempts h step i n).0 ≡ []
unfolding try_attempts
acted-attempts h step i zero = refl
acted-attempts h step i (suc n) = elim (Bool-cases (h.attempt_ok i)) [
  | inl e ↦ rw e refl
  | inr e ↦ rw e (acted-attempts h step (suc i) n)
]

acted-fallback : (h : Host) (step : ℕ) → acted (try_fallback h step) ≡ []
unfolding try_fallback all_paths_failed
acted-fallback h step = ground arith

pub acted-reach_out : (h : Host) (step : ℕ) → acted (reach_out h step) ≡ []
unfolding reach_out
acted-reach_out h step = elim (Bool-cases (try_attempts h step 0 3).1) [
  | inl ok ↦ rw ok (acted-attempts h step 0 3)
  | inr failed ↦
      rw
        (
          failed,
          acted-append (try_attempts h step 0 3).0 (try_fallback h step),
          acted-attempts h step 0 3,
        )
        (acted-fallback h step)
]

acted-execute :
    (h : Host) (step : ℕ)
    → (execute_with_fallback h step ≡ none)
      ⊎ ((es : List Effect) × (execute_with_fallback h step ≡ some es) × (acted es ≡ step ∷ []))
unfolding execute_with_fallback
acted-execute h step = elim (Bool-cases h.audit_ok) [
  | inr e ↦ inl (rw e refl)
  | inl e ↦
      inr (audit step mcp ∷ reach_out h step, rw e refl, ap (◌∷◌ step) (acted-reach_out h step))
]

-- The step that the agent has reached in its episode.
abbrev pub level : AgentEscalationState → ℕ
level s = if is_some s.current_episode_start_unix then s.escalation_step else 0

pub state-save :
    (who : String) (s : AgentEscalationState) (b : EscalationBridge)
    → agent_state who (save_state who s b) ≡ s
unfolding agent_state save_state load
state-save who s b = rw (lookup-insert_self who s (load b.state_file)) refl

due-bound :
    (b : EscalationBridge) (input : AgentTickInput) (now start step n : ℕ)
    → due_step b input now start step ≡ some n
    → (n ≡ suc step) × (n ≤ 3)
unfolding due_step
due-bound b input now start step n e = ground (arith, e)

-- What a tick does to the level: nothing, with no step executed, or one step up.
Climbs : String → EscalationBridge → Ticked → Type 0
Climbs who b t =
    ((acted t.effects ≡ []) × (level (agent_state who t.bridge) ≡ level (agent_state who b)))
    ⊎ ((n : ℕ) × (acted t.effects ≡ n ∷ [])
        × (n ≡ suc (level (agent_state who b)))
        × (n ≤ 3)
        × (level (agent_state who t.bridge) ≡ n))

open-level :
    (now : ℕ) (s : AgentEscalationState)
    → ((open_episode now s).0.escalation_step ≡ level s)
      × (is_some (open_episode now s).0.current_episode_start_unix ≡ true)
unfolding open_episode
open-level now s = elim (Option-cases s.current_episode_start_unix) [
  | inl e ↦ rw e (refl, refl)
  | inr (start, e) ↦ rw e (refl, refl)
]

level-opened : (now : ℕ) (s : AgentEscalationState) → level (open_episode now s).0 ≡ level s
level-opened now s = let (same, started) = open-level now s in rw started same

level-stepped :
    (now n : ℕ) (s : AgentEscalationState)
    → is_some s.current_episode_start_unix ≡ true
    → level (stepped now n s) ≡ n
level-stepped now n s e = rw e refl

act-Climbs :
    (h : Host) (who : String) (now n : ℕ) (s : AgentEscalationState) (b : EscalationBridge)
    → is_some s.current_episode_start_unix ≡ true
    → n ≡ suc (level (agent_state who b))
    → n ≤ 3
    → Climbs who b (act h who now n s b)
unfolding act Climbs
act-Climbs h who now n s b started next small = elim (acted-execute h n) [
  | inl threw ↦ rw (act, threw) (inl (refl, refl))
  | inr (es, ran, one) ↦
      rw (act, ran)
        (inr (
          n,
          one,
          next,
          small,
          ap level (state-save who (stepped now n s) b) ∙ level-stepped now n s started,
        ))
]

stuck_tick-Climbs :
    (h : Host) (who : String) (input : AgentTickInput) (now : ℕ) (b : EscalationBridge)
    → Climbs who b (stuck_tick h who input now b)
unfolding stuck_tick
stuck_tick-Climbs h who input now b =
    let s = agent_state who b in
    let o = open_episode now s in
    let (same, started) = open-level now s in
    elim (Option-cases (due_step b input now o.1 o.0.escalation_step)) [
      | inl quiet ↦
          rw (stuck_tick, quiet)
            (unfold Climbs in inl (refl, ap level (state-save who o.0 b) ∙ level-opened now s))
      | inr (n, due) ↦
          let (next, small) = due-bound b input now o.1 o.0.escalation_step n due in
          rw (stuck_tick, due) (act-Climbs h who now n o.0 b started (next ∙ ap suc same) small)
    ]

tick-Climbs :
    (h : Host) (who : String) (input : AgentTickInput) (now : ℕ) (b : EscalationBridge)
    → (is_parked_state input.classifier_state || is_stuck input.classifier_state) ≡ true
    → Climbs who b (tick h who input now b)
unfolding tick
tick-Climbs h who input now b e = elim (Bool-cases (b.lock_acquired && is_enabled who b)) [
  | inr off ↦ rw off (unfold Climbs in inl (refl, refl))
  | inl on ↦ elim (Bool-cases (is_parked_state input.classifier_state)) [
    | inl parked ↦
        rw (on, parked)
          (unfold Climbs in inl (refl, ap level (state-save who (agent_state who b) b)))
    | inr free ↦
        let busy : is_stuck input.classifier_state ≡ true = rw free at e in
        rw (on, free, busy) (stuck_tick-Climbs h who input now b)
  ]
]

-- The ticks of one agent, one after another.
pub record Beat : Type 0 where
  pub host : Host
  pub input : AgentTickInput
  pub at : ℕ

unfoldable pub ticks : String → List Beat → EscalationBridge → List Effect × EscalationBridge
unfolding tick
ticks who [] b = ([], b)
ticks who (t ∷ ts) b =
    let here = tick t.host who t.input t.at b in
    let (es, b') = ticks who ts here.bridge in (here.effects ++ es, b')

abbrev pub is_no_recovery : Beat → Bool
is_no_recovery t = is_parked_state t.input.classifier_state || is_stuck t.input.classifier_state

-- Steps that follow each other from the one after k, up to step 3.
abbrev pub IsClimb : ℕ → List ℕ → Type 0
IsClimb k [] = Unit
IsClimb k (n ∷ ns) = (n ≡ suc k) × (n ≤ 3) × IsClimb n ns

-- While an agent does not recover, at whatever times it is seen stuck or parked and whatever the host
-- answers, the bridge executes the steps that are left of its episode in their order, each at most
-- once: the steps executed are the next one, the one after it, and so on, and none is above 3.
pub steps_in_order :
    (who : String) (ts : List Beat) (b : EscalationBridge)
    → every is_no_recovery ts ≡ true
    → IsClimb (level (agent_state who b)) (acted (ticks who ts b).0)
unfolding ticks Climbs
steps_in_order who [] b e = tt
steps_in_order who (t ∷ ts) b e = elim (Bool-cases (is_no_recovery t)) [
  | inr bad ↦ let no : false ≡ true = rw bad at e in cc
  | inl fine ↦
      let here = tick t.host who t.input t.at b in
      let later = steps_in_order who ts here.bridge (rw fine at e) in
      let split = acted-append here.effects (ticks who ts here.bridge).0 in
      elim (tick-Climbs t.host who t.input t.at b fine) [
        | inl (quiet, same) ↦
            subst (λ l. IsClimb (level (agent_state who b)) l) (sym split)
              (rw quiet (subst (λ k. IsClimb k (acted (ticks who ts here.bridge).0)) same later))
        | inr (n, one, next, small, reached) ↦
            subst (λ l. IsClimb (level (agent_state who b)) l) (sym split)
              (rw one (
                next,
                small,
                subst (λ k. IsClimb k (acted (ticks who ts here.bridge).0)) reached later,
              ))
      ]
]
