-- ===== src/Debounce/Counts.antt =====
-- No event is lost (recordPendingEvent and tryNudge of debounce.ts).
use threadwork.Prelude.{
  ℕ, ◌+◌, ◌≡◌, refl, String, Bool, true, false, not, ◌||◌, Option, none, some, List, [], ◌∷◌, arith,
  Bool-cases, inl, inr, str_eq, eq_iff, if◌then◌else◌, ap, ◌∙◌, sym, keep, length,
}
use threadwork.Prelude.Store.{lookup, insert, lookup-insert}
use threadwork.Debounce.{
  DebounceConfig, DebounceRow, NudgeDebounce, TryNudgeResult, record_row, record_pending_event,
  nudge_row, try_nudge, is_window_elapsed, with_pending, fired_row, pass_through,
}

-- An event for an agent, with its urgency: one that is recorded, and one that may nudge at a time.
pub data Event : Type 0 where
  recorded : String → String → Event
  tried : String → String → ℕ → Event

abbrev pub agent_of : Event → String
agent_of (recorded agent urgency) = agent
agent_of (tried agent urgency now) = agent

-- The count that a nudge to the agent reports.
abbrev pub reported_to : String → String → TryNudgeResult → ℕ
reported_to agent other r =
    if str_eq other agent then (if r.should_fire then r.pending_count else 0) else 0

-- All that the nudges to the agent report, and the table after the events.
unfoldable pub reported : DebounceConfig → String → List Event → NudgeDebounce → ℕ × NudgeDebounce
unfolding record_pending_event try_nudge
reported cfg agent [] t = (0, t)
reported cfg agent (recorded other urgency ∷ later) t =
    reported cfg agent later (record_pending_event cfg other urgency t)
reported cfg agent (tried other urgency now ∷ later) t =
    let out = try_nudge cfg other urgency now t in
    let rest = reported cfg agent later out.1 in (reported_to agent other out.0 + rest.0, rest.1)

abbrev pending_of : Option DebounceRow → ℕ
pending_of none = 0
pending_of (some r) = r.pending_count

-- The events that wait for the next nudge to the agent.
unfoldable pub pending : String → NudgeDebounce → ℕ
unfolding lookup
pending agent t = pending_of (lookup agent t)

same_agent : (agent : String) → str_eq agent agent ≡ true
same_agent agent = ground (arith, eq_iff agent agent)

pending-insert :
    (agent other : String) (r : DebounceRow) (t : NudgeDebounce)
    → pending agent (insert other r t)
      ≡ (if str_eq other agent then r.pending_count else pending agent t)
unfolding pending
pending-insert agent other r t = elim (Bool-cases (str_eq other agent)) [
  | inl e ↦ rw (lookup-insert other agent r t, e) refl
  | inr e ↦ rw (lookup-insert other agent r t, e) refl
]

pending-found :
    (agent other : String) (o : Option DebounceRow) (t : NudgeDebounce)
    → lookup other t ≡ o
    → str_eq other agent ≡ true
    → pending agent t ≡ pending_of o
unfolding pending
pending-found agent other o t found hit =
    let same : other ≡ agent = ground (arith, eq_iff other agent, hit) in
    let here : lookup agent t ≡ o = rw (sym same) found in ap pending_of here

pending-record_row :
    (agent other urgency : String) (o : Option DebounceRow) (t : NudgeDebounce)
    → lookup other t ≡ o
    → pending agent (record_row other urgency o t)
      ≡ pending agent t + (if str_eq other agent then 1 else 0)
unfolding record_row
pending-record_row agent other urgency none t found =
    let after =
      pending-insert agent other
        (record { last_nudged_at = none; pending_count = 1; last_urgency = urgency }) t in
    elim (Bool-cases (str_eq other agent)) [
      | inl hit ↦ rw (after, pending-found agent other none t found hit, hit) refl
      | inr miss ↦ rw (after, miss) (omega arith)
    ]
pending-record_row agent other urgency (some r) t found =
    let after = pending-insert agent other (with_pending urgency r) t in
    elim (Bool-cases (str_eq other agent)) [
      | inl hit ↦ rw (after, pending-found agent other (some r) t found hit, hit) refl
      | inr miss ↦ rw (after, miss) (omega arith)
    ]

pending-nudge_row :
    (cfg : DebounceConfig) (agent other urgency : String) (now : ℕ) (o : Option DebounceRow)
    (t : NudgeDebounce)
    → lookup other t ≡ o
    → let out = nudge_row cfg other urgency now o t in
      reported_to agent other out.0 + pending agent out.1
      ≡ pending agent t + (if str_eq other agent then 1 else 0)
unfolding nudge_row
pending-nudge_row cfg agent other urgency now none t found =
    let after = pending-insert agent other (fired_row now urgency) t in
    elim (Bool-cases (str_eq other agent)) [
      | inl hit ↦ rw (after, pending-found agent other none t found hit, hit) refl
      | inr miss ↦ rw (after, miss) (omega arith)
    ]
pending-nudge_row cfg agent other urgency now (some r) t found =
    elim (Bool-cases (is_window_elapsed cfg now r || str_eq urgency "urgent")) [
      | inl fires ↦
          let after = pending-insert agent other (fired_row now urgency) t in
          elim (Bool-cases (str_eq other agent)) [
            | inl hit ↦
                rw (fires, after, pending-found agent other (some r) t found hit, hit) (omega arith)
            | inr miss ↦ rw (fires, after, miss) (omega arith)
          ]
      | inr waits ↦
          let after = pending-insert agent other (with_pending urgency r) t in
          elim (Bool-cases (str_eq other agent)) [
            | inl hit ↦
                rw (waits, after, pending-found agent other (some r) t found hit, hit) (omega arith)
            | inr miss ↦ rw (waits, after, miss) (omega arith)
          ]
    ]

one_more :
    (b : Bool) (events : List Event) (e : Event)
    → length (if b then e ∷ events else events) ≡ length events + (if b then 1 else 0)
one_more true events e = omega arith
one_more false events e = omega arith

pub record_on :
    (cfg : DebounceConfig) (agent urgency : String) (t : NudgeDebounce)
    → cfg.enabled ≡ true
    → record_pending_event cfg agent urgency t ≡ record_row agent urgency (lookup agent t) t
unfolding record_pending_event
record_on cfg agent urgency t on =
    ap (λ b. if not b then t else record_row agent urgency (lookup agent t) t) on

pub nudge_on :
    (cfg : DebounceConfig) (agent urgency : String) (now : ℕ) (t : NudgeDebounce)
    → cfg.enabled ≡ true
    → try_nudge cfg agent urgency now t ≡ nudge_row cfg agent urgency now (lookup agent t) t
unfolding try_nudge
nudge_on cfg agent urgency now t on =
    ap
      (λ b. if not b then (pass_through, t) else nudge_row cfg agent urgency now (lookup agent t) t)
      on

-- No event is lost: with the debounce enabled, the counts that the nudges to an agent report, and
-- what is pending after them, are together all the events for the agent and what was pending before.
pub events_conserved :
    (cfg : DebounceConfig) (agent : String) (events : List Event) (t : NudgeDebounce)
    → cfg.enabled ≡ true
    → let out = reported cfg agent events t in
      out.0 + pending agent out.1
      ≡ pending agent t + length (keep (λ e. str_eq (agent_of e) agent) events)
unfolding reported
events_conserved cfg agent [] t on = omega arith
events_conserved cfg agent (recorded other urgency ∷ later) t on =
    let rest = events_conserved cfg agent later (record_pending_event cfg other urgency t) on in
    let here =
      ap (pending agent) (record_on cfg other urgency t on)
      ∙ pending-record_row agent other urgency (lookup other t) t refl in
    let counts =
      one_more (str_eq other agent) (keep (λ e. str_eq (agent_of e) agent) later)
        (recorded other urgency) in
    omega (arith, rest, here, counts)
events_conserved cfg agent (tried other urgency now ∷ later) t on =
    let out = try_nudge cfg other urgency now t in
    let rest = events_conserved cfg agent later out.1 on in
    let here =
      ap
        (λ (out : TryNudgeResult × NudgeDebounce).
          reported_to agent other out.0 + pending agent out.1)
        (nudge_on cfg other urgency now t on)
      ∙ pending-nudge_row cfg agent other urgency now (lookup other t) t refl in
    let counts =
      one_more (str_eq other agent) (keep (λ e. str_eq (agent_of e) agent) later)
        (tried other urgency now) in
    omega (arith, rest, here, counts)
