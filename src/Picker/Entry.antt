-- ===== src/Picker/Entry.antt =====
-- One entry of an agent into a picker (classify of parked-picker-classifier.ts).
use threadwork.Prelude.{
  ℕ, or_else, is_some, ◌==◌, ◌+◌, ◌≤◌, ◌≡◌, refl, String, Bool, true, false, not, ◌&&◌, ◌||◌,
  Option, none, some, List, [], ◌∷◌, arith, every, keep, length, Bool-cases, inl, inr, str_eq,
  eq_iff, if◌then◌else◌, ap, ◌∙◌, Option-cases,
}
use threadwork.Prelude.Store.{lookup, lookup-insert, lookup-remove}
use threadwork.Picker.{
  AgentPickerState, ParkedPickerState, ParkedPickerClassifier, PickerSubtype, Reported,
  parked_picker, parked_picker_stale, SignaturesFile, reload_signatures, reload_from, absent,
  malformed, readable, has_active_prompt, sighted, is_due, clear_agent_state, classify_prompt,
  classify, get_agent_state_entered_at, entered_at, recognized, match_signatures,
}

-- A call of classify.
pub record Look : Type 0 where
  pub who : String
  pub pane : String
  pub at : ℕ

unfoldable pub looks :
    (String → String)
    → List Look
    → ParkedPickerClassifier
    → List ParkedPickerState × ParkedPickerClassifier
unfolding classify
looks cut [] c = ([], c)
looks cut (l ∷ later) c =
    let out = (classify cut l.who l.pane l.at c).0 in
    let rest = looks cut later out.1 in (out.0 ∷ rest.0, rest.1)

-- The agent has an active prompt whenever it is looked at.
abbrev pub stays : String → Look → Bool
stays agent l = not (str_eq l.who agent) || has_active_prompt l.pane

abbrev pub is_stale : Option Reported → Bool
is_stale none = false
is_stale (some parked_picker) = false
is_stale (some parked_picker_stale) = true

abbrev pub stale_for : String → ParkedPickerState → Bool
stale_for agent r = str_eq r.agent agent && is_stale r.state

-- How many reports are left for the entry.
abbrev left : Option AgentPickerState → ℕ
left none = 1
left (some s) = if s.stale_fired then 0 else 1

states-reload_from :
    (file : SignaturesFile) (c : ParkedPickerClassifier)
    → (reload_from file c).agent_states ≡ c.agent_states
unfolding reload_from
states-reload_from absent c = refl
states-reload_from (malformed mtime) c = refl
states-reload_from (readable mtime signatures) c = elim (Bool-cases (mtime == c.signatures_mtime)) [
  | inl e ↦ rw e refl
  | inr e ↦ rw e refl
]

states-reload : (c : ParkedPickerClassifier) → (reload_signatures c).agent_states ≡ c.agent_states
unfolding reload_signatures
states-reload c = states-reload_from c.signatures_file c

abbrev known : String → ParkedPickerClassifier → Option AgentPickerState
known agent c = lookup agent c.agent_states

known-reload :
    (agent : String) (c : ParkedPickerClassifier)
    → known agent (reload_signatures c) ≡ known agent c
known-reload agent c = ap (lookup agent) (states-reload c)

known-sighted_other :
    (agent other : String) (m : PickerSubtype × String) (now : ℕ) (o : Option AgentPickerState)
    (c : ParkedPickerClassifier)
    → str_eq other agent ≡ false
    → known agent (sighted other m now o c).1 ≡ known agent c
unfolding sighted
known-sighted_other agent other m now none c apart =
    lookup-insert other agent _ c.agent_states ∙ rw apart refl
known-sighted_other agent other m now (some s) c apart =
    elim (Bool-cases (is_due c.stale_ttl_sec now s)) [
      | inl e ↦ rw e (lookup-insert other agent _ c.agent_states ∙ rw apart refl)
      | inr e ↦ rw e refl
    ]

agent-sighted :
    (agent : String) (m : PickerSubtype × String) (now : ℕ) (o : Option AgentPickerState)
    (c : ParkedPickerClassifier)
    → (sighted agent m now o c).0.agent ≡ agent
unfolding sighted
agent-sighted agent m now none c = refl
agent-sighted agent m now (some s) c = elim (Bool-cases (is_due c.stale_ttl_sec now s)) [
  | inl e ↦ rw e refl
  | inr e ↦ rw e refl
]

-- A look at another agent.
look_other :
    (cut : String → String) (agent : String) (l : Look) (c : ParkedPickerClassifier)
    → str_eq l.who agent ≡ false
    → let out = (classify cut l.who l.pane l.at c).0 in
      (known agent out.1 ≡ known agent c) × (stale_for agent out.0 ≡ false)
unfolding classify classify_prompt clear_agent_state
look_other cut agent l c apart = elim (Bool-cases (has_active_prompt l.pane)) [
  | inr gone ↦ rw gone (
    lookup-remove l.who agent (reload_signatures c).agent_states ∙ rw apart (known-reload agent c),
    rw apart refl,
  )
  | inl here ↦
      let loaded = reload_signatures c in
      let m = (recognized cut l.who l.pane l.at (match_signatures loaded.signatures l.pane)).0 in
      let o = known l.who loaded in
      rw here (
        known-sighted_other agent l.who m l.at o loaded apart ∙ known-reload agent c,
        rw (agent-sighted l.who m l.at o loaded, apart) refl,
      )
]

-- What is reported and what is left to report.
abbrev spent : String → ParkedPickerState × ParkedPickerClassifier → ℕ
spent agent out = (if stale_for agent out.0 then 1 else 0) + left (known agent out.1)

spent-sighted :
    (agent : String) (m : PickerSubtype × String) (now : ℕ) (o : Option AgentPickerState)
    (c : ParkedPickerClassifier)
    → known agent c ≡ o
    → spent agent (sighted agent m now o c) ≡ left o
unfolding sighted
spent-sighted agent m now none c e =
    let same : str_eq agent agent ≡ true = ground (arith, eq_iff agent agent) in
    let after =
      lookup-insert agent agent
        (record { state_entered_at = now; picker_subtype = m.0; stale_fired = false })
        c.agent_states in
    rw (same, after) (rw same refl)
spent-sighted agent m now (some s) c e =
    let same : str_eq agent agent ≡ true = ground (arith, eq_iff agent agent) in
    elim (Bool-cases (is_due c.stale_ttl_sec now s)) [
      | inr early ↦ rw (early, same, e) (omega arith)
      | inl late ↦
          let after = lookup-insert agent agent (record s { stale_fired = true }) c.agent_states in
          elim (Bool-cases s.stale_fired) [
            | inl told ↦ rw (late, same, after, told) (rw same refl)
            | inr fresh ↦ rw (late, same, after, fresh) (rw same refl)
          ]
    ]

spent-classify :
    (cut : String → String) (agent pane : String) (at : ℕ) (c : ParkedPickerClassifier)
    → has_active_prompt pane ≡ true
    → spent agent (classify cut agent pane at c).0 ≡ left (known agent c)
unfolding classify classify_prompt
spent-classify cut agent pane at c here =
    let loaded = reload_signatures c in
    let m = (recognized cut agent pane at (match_signatures loaded.signatures pane)).0 in
    rw here
      (spent-sighted agent m at (known agent loaded) loaded refl ∙ ap left (known-reload agent c))

stale_left :
    (cut : String → String) (agent : String) (ls : List Look) (c : ParkedPickerClassifier)
    → every (stays agent) ls ≡ true
    → length (keep (stale_for agent) (looks cut ls c).0) + left (known agent (looks cut ls c).1)
      ≡ left (known agent c)
unfolding looks
stale_left cut agent [] c ok = omega arith
stale_left cut agent (l ∷ later) c ok = elim (Bool-cases (stays agent l)) [
  | inr bad ↦ let no : false ≡ true = rw bad at ok in cc
  | inl good ↦
      let out = (classify cut l.who l.pane l.at c).0 in
      let rest = stale_left cut agent later out.1 (rw good at ok) in
      elim (Bool-cases (str_eq l.who agent)) [
        | inr apart ↦
            let (same, silent) = look_other cut agent l c apart in rw silent (rest ∙ ap left same)
        | inl hit ↦
            let same : l.who ≡ agent = ground (arith, eq_iff l.who agent, hit) in
            let here : has_active_prompt l.pane ≡ true = ground (arith, rw hit at good) in
            let step : spent agent out ≡ left (known agent c) =
              rw same (spent-classify cut agent l.pane l.at c here) in
            elim (Bool-cases (stale_for agent out.0)) [
              | inl told ↦ rw told (omega (arith, rest, rw told at step))
              | inr silent ↦ rw silent (omega (arith, rest, rw silent at step))
            ]
      ]
]

left_bound : (o : Option AgentPickerState) → left o ≤ 1
left_bound none = omega arith
left_bound (some s) = ground arith

-- A stale picker is reported once. However often an agent is looked at, in whatever order with other
-- agents and at whatever times, as long as it has an active prompt at each look, at most one look
-- reports it as stale.
pub stale_once :
    (cut : String → String) (agent : String) (ls : List Look) (c : ParkedPickerClassifier)
    → every (stays agent) ls ≡ true
    → length (keep (stale_for agent) (looks cut ls c).0) ≤ 1
stale_once cut agent ls c ok =
    omega (arith, stale_left cut agent ls c ok, left_bound (known agent c))

entered-sighted :
    (agent : String) (m : PickerSubtype × String) (now : ℕ) (o : Option AgentPickerState)
    (c : ParkedPickerClassifier)
    → known agent c ≡ o
    → entered_at (known agent (sighted agent m now o c).1) ≡ some (or_else (entered_at o) now)
unfolding sighted
entered-sighted agent m now none c e =
    ap entered_at (lookup-insert agent agent _ c.agent_states)
    ∙ (let same : str_eq agent agent ≡ true = ground (arith, eq_iff agent agent) in rw same refl)
entered-sighted agent m now (some s) c e = elim (Bool-cases (is_due c.stale_ttl_sec now s)) [
  | inr early ↦ rw (early, e) refl
  | inl late ↦ rw late (
      ap entered_at (lookup-insert agent agent _ c.agent_states)
      ∙ (let same : str_eq agent agent ≡ true = ground (arith, eq_iff agent agent) in rw same refl))
]

entered_classify :
    (cut : String → String) (agent pane : String) (at : ℕ) (c : ParkedPickerClassifier)
    → has_active_prompt pane ≡ true
    → entered_at (known agent (classify cut agent pane at c).0.1)
      ≡ some (or_else (entered_at (known agent c)) at)
unfolding classify classify_prompt
entered_classify cut agent pane at c here =
    let loaded = reload_signatures c in
    let m = (recognized cut agent pane at (match_signatures loaded.signatures pane)).0 in
    rw here (
      entered-sighted agent m at (known agent loaded) loaded refl
      ∙ ap (λ o. some (or_else (entered_at o) at)) (known-reload agent c))

-- The time of the first of the looks at the agent.
abbrev pub first_look : String → List Look → Option ℕ
first_look agent [] = none
first_look agent (l ∷ later) =
    let rest = first_look agent later in if str_eq l.who agent then some l.at else rest

-- The time of entry is kept: after any looks at each of which the agent has an active prompt, it is
-- the one that was known before and, if none was, the time of the first look at the agent.
pub entry_kept :
    (cut : String → String) (agent : String) (ls : List Look) (c : ParkedPickerClassifier)
    → every (stays agent) ls ≡ true
    → get_agent_state_entered_at agent (looks cut ls c).1 ≡ (
        if is_some (get_agent_state_entered_at agent c)
        then get_agent_state_entered_at agent c
        else first_look agent ls)
unfolding looks get_agent_state_entered_at
entry_kept cut agent [] c ok = elim (Option-cases (entered_at (known agent c))) [
  | inl e ↦ rw e refl
  | inr (t, e) ↦ rw e refl
]
entry_kept cut agent (l ∷ later) c ok = elim (Bool-cases (stays agent l)) [
  | inr bad ↦ let no : false ≡ true = rw bad at ok in cc
  | inl good ↦
      let out = (classify cut l.who l.pane l.at c).0 in
      let rest = entry_kept cut agent later out.1 (rw good at ok) in
      elim (Bool-cases (str_eq l.who agent)) [
        | inr apart ↦
            let same = (look_other cut agent l c apart).0 in
            rest
            ∙ (rw apart (
                ap (λ o. if is_some (entered_at o) then entered_at o else first_look agent later)
                  same))
        | inl hit ↦
            let same : l.who ≡ agent = ground (arith, eq_iff l.who agent, hit) in
            let here : has_active_prompt l.pane ≡ true = ground (arith, rw hit at good) in
            let entered : entered_at (known agent out.1)
                ≡ some (or_else (entered_at (known agent c)) l.at) =
              rw same (entered_classify cut agent l.pane l.at c here) in
            rest
            ∙ ap (λ o. if is_some o then o else first_look agent later) entered
            ∙ elim (Option-cases (entered_at (known agent c))) [
              | inl e ↦ rw (e, hit) refl
              | inr (t, e) ↦ rw e refl
            ]
      ]
]
