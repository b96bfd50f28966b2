-- ===== src/Signals/Quarantine.antt =====
-- How a quarantine begins and ends (recordViolation and isQuarantined of db.ts).
use threadwork.Prelude.{
  ℕ, ◌+◌, ◌*◌, ◌/◌, ◌≤◌, ◌<◌, ◌≡◌, refl, max, String, Bool, true, false, not, ◌&&◌, Option, none,
  some, arith, List, [], ◌∷◌, arith, ltb, str_eq, eq_iff, if◌then◌else◌, or_else, keep, length,
  Bool-cases, Option-cases, inl, inr, ◌⊎◌, ap, ◌∙◌,
}
use threadwork.Signals.{
  Signals, Violation, record_violation, get_recent_violation_count, last_violation, has_recovered,
  is_quarantined, is_within,
}
use threadwork.Blackboard.{is_feature_enabled}

-- No violation of the agent is later than the time.
abbrev pub IsLast : String → ℕ → List Violation → Type 0
IsLast agent last [] = Unit
IsLast agent last (v ∷ older) =
    (str_eq v.agent_id agent ≡ true → v.created_at ≤ last) × IsLast agent last older

last_bound :
    (agent : String) (last : ℕ) (vs : List Violation)
    → IsLast agent last vs
    → or_else (last_violation agent vs) 0 ≤ last
unfolding last_violation
last_bound agent last [] h = omega arith
last_bound agent last (v ∷ older) (of_v, h) =
    let rest = last_bound agent last older h in
    elim (Bool-cases (str_eq v.agent_id agent)) [
      | inl own ↦ rw own (omega (arith, rest, of_v own))
      | inr other ↦ rw other rest
    ]

none_recent :
    (now window : ℕ) (agent : String) (vs : List Violation)
    → last_violation agent vs ≡ none
    → length (keep (λ (v : Violation). str_eq v.agent_id agent && is_within now window v) vs) ≡ 0
unfolding last_violation
none_recent now window agent [] e = refl
none_recent now window agent (v ∷ older) e = elim (Bool-cases (str_eq v.agent_id agent)) [
  | inl own ↦
      let no : some (max v.created_at (or_else (last_violation agent older) 0)) ≡ none =
        rw own at e in
      cc
  | inr other ↦ rw other (none_recent now window agent older (rw other at e))
]

tests_false :
    (on few recovered : Bool)
    → (few ≡ true) ⊎ (recovered ≡ true)
    → (if not on then false else if few then false else not recovered) ≡ false
tests_false true true recovered h = refl
tests_false true false true h = refl
tests_false true false false (inl e) = cc
tests_false true false false (inr e) = cc
tests_false false few recovered h = refl

-- A quarantine ends by itself: an agent none of whose violations is later than a time is not in
-- quarantine more than four hours after it, however many violations it has.
pub quarantine_ends :
    (now_ms last : ℕ) (agent : String) (s : Signals)
    → IsLast agent last s.violations
    → (last * 1000 + 14400000) < now_ms
    → is_quarantined now_ms agent s ≡ false
unfolding is_quarantined get_recent_violation_count
quarantine_ends now_ms last agent s h late =
    tests_false (is_feature_enabled "gates_enabled" s.flags)
      (ltb (get_recent_violation_count (now_ms / 1000) agent 24 s) 5)
      (has_recovered now_ms (last_violation agent s.violations))
      (elim (Option-cases (last_violation agent s.violations)) [
        | inl e ↦
            let count = none_recent (now_ms / 1000) 24 agent s.violations e in
            inl (ground (arith, count))
        | inr (l, e) ↦
            let bound : or_else (some l) 0 ≤ last =
              rw e at (last_bound agent last s.violations h) in
            inr (ap (has_recovered now_ms) e ∙ ground (arith, bound, late))
      ])

-- The fifth violation within a day puts the agent in quarantine: with the gates enabled, where four are
-- counted, the agent is in quarantine as soon as one more is recorded.
pub fifth_quarantines :
    (now_ms : ℕ) (agent violation_type detail : String) (task_id : Option ℕ) (s : Signals)
    → is_feature_enabled "gates_enabled" s.flags ≡ true
    → 4 ≤ get_recent_violation_count (now_ms / 1000) agent 24 s
    → is_quarantined now_ms agent
        (record_violation (now_ms / 1000) agent violation_type detail task_id s).1
      ≡ true
unfolding is_quarantined get_recent_violation_count record_violation last_violation
fifth_quarantines now_ms agent violation_type detail task_id s on four =
    let own : str_eq agent agent ≡ true = ground (arith, eq_iff agent agent) in
    let older = or_else (last_violation agent s.violations) 0 in
    let now = now_ms / 1000 in
    let here : ltb now (now + 24 * 3600) ≡ true = ground arith in
    let fresh : ltb (max now older * 1000 + 14400000) now_ms ≡ false = ground arith in
    rw (on, own, here, fresh) (ground (arith, four))
