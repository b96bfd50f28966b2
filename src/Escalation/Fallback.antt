-- ===== src/Escalation/Fallback.antt =====
-- What one step of an escalation does outside (executeWithFallback of escalation-bridge/index.ts).
use threadwork.Prelude.{
  ℕ, ◌≡◌, refl, Bool, true, false, not, ◌&&◌, ◌||◌, none, some, List, ◌∷◌, if◌then◌else◌, arith,
  any, inl, inr, Bool-cases,
}
use threadwork.Escalation.{
  Host, Effect, mcp, audit, critical_telegram, execute_with_fallback, reach_out, try_attempts,
  try_fallback, all_paths_failed,
}

-- Whether a step reached somebody: the action succeeded at one of its three attempts, or the fallback
-- did, behind its own audit entry.
abbrev pub reached : Host → Bool
reached h =
    h.attempt_ok 0 || h.attempt_ok 1 || h.attempt_ok 2 || (h.fallback_audit_ok && h.fallback_ok)

abbrev pub is_telegram : Effect → Bool
is_telegram (critical_telegram step) = true
is_telegram _ = false

telegram-fallback :
    (h : Host) (step : ℕ)
    → any is_telegram (try_fallback h step) ≡ not (h.fallback_audit_ok && h.fallback_ok)
unfolding try_fallback all_paths_failed
telegram-fallback h step = ground arith

telegram-reach_out : (h : Host) (step : ℕ) → any is_telegram (reach_out h step) ≡ not (reached h)
unfolding reach_out try_attempts
telegram-reach_out h step = elim (Bool-cases (h.attempt_ok 0)) [
  | inl e ↦ rw e refl
  | inr e ↦ elim (Bool-cases (h.attempt_ok 1)) [
    | inl f ↦ rw (e, f) refl
    | inr f ↦ elim (Bool-cases (h.attempt_ok 2)) [
      | inl g ↦ rw (e, f, g) refl
      | inr g ↦ rw (e, f, g) (telegram-fallback h step)
    ]
  ]
]

-- The first audit write comes before everything else: if it fails nothing is done at all. If it
-- succeeds, the critical Telegram message is sent exactly if neither the action, tried up to three
-- times, nor the fallback succeeded.
pub execute_with_fallback_lem :
    (h : Host) (step : ℕ)
    → (es : List Effect) × (execute_with_fallback h step
        ≡ (if h.audit_ok then some (audit step mcp ∷ es) else none))
      × (any is_telegram es ≡ not (reached h))
unfolding execute_with_fallback
execute_with_fallback_lem h step = (reach_out h step, refl, telegram-reach_out h step)
