-- ===== src/Debounce/Spacing.antt =====
-- The window between nudges (tryNudge of debounce.ts).
use threadwork.Prelude.{
  ℕ, ◌+◌, ◌*◌, ◌/◌, ◌<◌, ◌≤◌, ◌≡◌, refl, String, Bool, true, false, ◌||◌, Option, none, some, List,
  [], ◌∷◌, arith, Bool-cases, inl, inr, ◌⊎◌, str_eq, eq_iff, if◌then◌else◌, ap, ◌∙◌, Option-cases,
  sym, All, ◌==◌, leb, or_else,
}
use threadwork.Prelude.Store.{lookup, insert, lookup-insert, lookup-insert_self}
use threadwork.Debounce.{
  DebounceConfig, DebounceRow, NudgeDebounce, record_row, record_pending_event, nudge_row,
  try_nudge, is_window_elapsed, with_pending, fired_row,
}
use threadwork.Debounce.Counts.{Event, recorded, tried, nudge_on}

-- The agent has been nudged, at a time in seconds that is not 0.
abbrev pub IsNudged : String → ℕ → NudgeDebounce → Type 0
IsNudged agent sec t =
    (r : DebounceRow) × (lookup agent t ≡ some r) × (r.last_nudged_at ≡ some sec) × (0 < sec)

-- An event that may not nudge the agent: it is recorded only, or is not urgent and comes in the window
-- after the nudge.
abbrev pub IsHeld : DebounceConfig → String → ℕ → Event → Type 0
IsHeld cfg agent sec (recorded other urgency) = Unit
IsHeld cfg agent sec (tried other urgency now) =
    (str_eq other agent ≡ false)
    ⊎ ((str_eq urgency "urgent" ≡ false) × (now < (sec * 1000 + cfg.window_sec * 1000)))

-- Whether the event nudges the agent, and the table after it.
unfoldable pub happens : DebounceConfig → String → Event → NudgeDebounce → Bool × NudgeDebounce
unfolding record_pending_event try_nudge
happens cfg agent (recorded other urgency) t = (false, record_pending_event cfg other urgency t)
happens cfg agent (tried other urgency now) t =
    let out = try_nudge cfg other urgency now t in
    (if str_eq other agent then out.0.should_fire else false, out.1)

unfoldable pub nudges : DebounceConfig → String → List Event → NudgeDebounce → List Bool
unfolding happens
nudges cfg agent [] t = []
nudges cfg agent (e ∷ later) t =
    let out = happens cfg agent e t in out.0 ∷ nudges cfg agent later out.1

insert-IsNudged :
    (agent other : String) (sec : ℕ) (r : DebounceRow) (t : NudgeDebounce)
    → IsNudged agent sec t
    → (str_eq other agent ≡ true → r.last_nudged_at ≡ some sec)
    → IsNudged agent sec (insert other r t)
insert-IsNudged agent other sec r t (q, found, at_sec, some_time) own =
    elim (Bool-cases (str_eq other agent)) [
      | inl hit ↦ (r, lookup-insert other agent r t ∙ rw hit refl, own hit, some_time)
      | inr miss ↦ (q, lookup-insert other agent r t ∙ rw miss found, at_sec, some_time)
    ]

found_row :
    (agent other : String) (sec : ℕ) (t : NudgeDebounce) (r : DebounceRow)
    → IsNudged agent sec t
    → lookup other t ≡ some r
    → str_eq other agent ≡ true
    → r.last_nudged_at ≡ some sec
found_row agent other sec t r (q, found, at_sec, some_time) here hit =
    let same : other ≡ agent = ground (arith, eq_iff other agent, hit) in
    let both : some r ≡ some q = sym here ∙ rw same found in
    let same_row : r ≡ q = cc in rw same_row at_sec

record-IsNudged :
    (cfg : DebounceConfig) (agent other urgency : String) (sec : ℕ) (t : NudgeDebounce)
    → IsNudged agent sec t
    → IsNudged agent sec (record_pending_event cfg other urgency t)
unfolding record_pending_event record_row
record-IsNudged cfg agent other urgency sec t nudged = elim (Bool-cases cfg.enabled) [
  | inr off ↦ rw off nudged
  | inl on ↦ elim (Option-cases (lookup other t)) [
    | inl missing ↦
        rw (on, missing)
          (insert-IsNudged agent other sec _ t nudged (λ hit. absurd (never hit missing)))
    | inr (r, here) ↦
        rw (on, here)
          (insert-IsNudged agent other sec (with_pending urgency r) t nudged
            (found_row agent other sec t r nudged here))
  ]
]
  where
    never : str_eq other agent ≡ true → lookup other t ≡ none → ⊥
    never hit missing =
        let (q, found, at_sec, some_time) = nudged in
        let same : other ≡ agent = ground (arith, eq_iff other agent, hit) in
        let none_there : lookup agent t ≡ none = rw (sym same) missing in
        let no : some q ≡ none = sym found ∙ none_there in cc

held_row :
    (cfg : DebounceConfig) (sec now : ℕ) (r : DebounceRow)
    → r.last_nudged_at ≡ some sec
    → 0 < sec
    → now < (sec * 1000 + cfg.window_sec * 1000)
    → is_window_elapsed cfg now r ≡ false
held_row cfg sec now r at_sec some_time early =
    ap (λ o. (or_else o 0 * 1000 == 0) || leb (or_else o 0 * 1000 + cfg.window_sec * 1000) now)
      at_sec
    ∙ ground (arith, some_time, early)

other-IsNudged :
    (cfg : DebounceConfig) (agent other urgency : String) (sec now : ℕ) (o : Option DebounceRow)
    (t : NudgeDebounce)
    → str_eq other agent ≡ false
    → IsNudged agent sec t
    → IsNudged agent sec (nudge_row cfg other urgency now o t).1
unfolding nudge_row
other-IsNudged cfg agent other urgency sec now none t apart nudged =
    insert-IsNudged agent other sec (fired_row now urgency) t nudged
      (λ hit. let no : true ≡ false = sym hit ∙ apart in cc)
other-IsNudged cfg agent other urgency sec now (some r) t apart nudged =
    elim (Bool-cases (is_window_elapsed cfg now r || str_eq urgency "urgent")) [
      | inl fires ↦ rw fires (
          insert-IsNudged agent other sec (fired_row now urgency) t nudged
            (λ hit. let no : true ≡ false = sym hit ∙ apart in cc))
      | inr waits ↦ rw waits (
          insert-IsNudged agent other sec (with_pending urgency r) t nudged
            (λ hit. let no : true ≡ false = sym hit ∙ apart in cc))
    ]

held_nudge :
    (cfg : DebounceConfig) (agent other urgency : String) (sec now : ℕ) (o : Option DebounceRow)
    (t : NudgeDebounce)
    → lookup other t ≡ o
    → str_eq other agent ≡ true
    → IsNudged agent sec t
    → str_eq urgency "urgent" ≡ false
    → now < (sec * 1000 + cfg.window_sec * 1000)
    → ((nudge_row cfg other urgency now o t).0.should_fire ≡ false)
      × IsNudged agent sec (nudge_row cfg other urgency now o t).1
unfolding nudge_row
held_nudge cfg agent other urgency sec now none t here hit (q, found, at_sec, some_time) calm
      early =
    let same : other ≡ agent = ground (arith, eq_iff other agent, hit) in
    let none_there : lookup agent t ≡ none = rw (sym same) here in
    let no : some q ≡ none = sym found ∙ none_there in cc
held_nudge cfg agent other urgency sec now (some r) t here hit nudged calm early =
    let own = found_row agent other sec t r nudged here in
    let held = held_row cfg sec now r (own hit) nudged.3 early in
    let waits : (is_window_elapsed cfg now r || str_eq urgency "urgent") ≡ false = rw held calm in
    rw waits (refl, insert-IsNudged agent other sec (with_pending urgency r) t nudged own)

tried-IsNudged :
    (cfg : DebounceConfig) (agent other urgency : String) (sec now : ℕ) (t : NudgeDebounce)
    → IsNudged agent sec t
    → IsHeld cfg agent sec (tried other urgency now)
    → let out = nudge_row cfg other urgency now (lookup other t) t in
      ((if str_eq other agent then out.0.should_fire else false) ≡ false) × IsNudged agent sec out.1
tried-IsNudged cfg agent other urgency sec now t nudged (inl apart) =
    (rw apart refl, other-IsNudged cfg agent other urgency sec now (lookup other t) t apart nudged)
tried-IsNudged cfg agent other urgency sec now t nudged (inr (calm, early)) =
    elim (Bool-cases (str_eq other agent)) [
      | inr apart ↦ (
        rw apart refl,
        other-IsNudged cfg agent other urgency sec now (lookup other t) t apart nudged,
      )
      | inl hit ↦
          let (silent, kept) =
            held_nudge cfg agent other urgency sec now (lookup other t) t refl hit nudged calm
              early in
          (rw hit silent, kept)
    ]

happens-IsNudged :
    (cfg : DebounceConfig) (agent : String) (sec : ℕ) (e : Event) (t : NudgeDebounce)
    → cfg.enabled ≡ true
    → IsNudged agent sec t
    → IsHeld cfg agent sec e
    → ((happens cfg agent e t).0 ≡ false) × IsNudged agent sec (happens cfg agent e t).1
unfolding happens
happens-IsNudged cfg agent sec (recorded other urgency) t on nudged held =
    (refl, record-IsNudged cfg agent other urgency sec t nudged)
happens-IsNudged cfg agent sec (tried other urgency now) t on nudged held =
    let same = nudge_on cfg other urgency now t on in
    rw same (tried-IsNudged cfg agent other urgency sec now t nudged held)

nudges_held :
    (cfg : DebounceConfig) (agent : String) (sec : ℕ) (events : List Event) (t : NudgeDebounce)
    → cfg.enabled ≡ true
    → IsNudged agent sec t
    → All (IsHeld cfg agent sec) events
    → All (λ fired. fired ≡ false) (nudges cfg agent events t)
unfolding nudges
nudges_held cfg agent sec [] t on nudged held = tt
nudges_held cfg agent sec (e ∷ later) t on nudged (e_held, held) =
    let (silent, nudged') = happens-IsNudged cfg agent sec e t on nudged e_held in
    (silent, nudges_held cfg agent sec later (happens cfg agent e t).1 on nudged' held)

-- What a nudge that fires leaves, whether it is the first, comes after the window or is urgent.
fires-IsNudged :
    (cfg : DebounceConfig) (agent urgency : String) (now : ℕ) (o : Option DebounceRow)
    (t : NudgeDebounce)
    → (nudge_row cfg agent urgency now o t).0.should_fire ≡ true
    → 0 < (now / 1000)
    → IsNudged agent (now / 1000) (nudge_row cfg agent urgency now o t).1
unfolding nudge_row
fires-IsNudged cfg agent urgency now none t fires later =
    (fired_row now urgency, lookup-insert_self agent (fired_row now urgency) t, refl, later)
fires-IsNudged cfg agent urgency now (some r) t fires later =
    elim (Bool-cases (is_window_elapsed cfg now r || str_eq urgency "urgent")) [
      | inl fired ↦
          rw fired
            (fired_row now urgency, lookup-insert_self agent (fired_row now urgency) t, refl, later)
      | inr waits ↦ let no : false ≡ true = rw waits at fires in cc
    ]

-- The window holds: with the debounce enabled, after a call at a time that nudged the agent, whether it
-- was the first nudge, came after the window or was urgent, no event nudges the agent again before
-- the window has passed, counted from the second of the nudge, unless the event is urgent, however
-- many events there are, for it and for others. The time is not in the first second of 1970.
pub window_holds :
    (cfg : DebounceConfig) (agent urgency : String) (now : ℕ) (events : List Event)
    (t : NudgeDebounce)
    → cfg.enabled ≡ true
    → 1000 ≤ now
    → (try_nudge cfg agent urgency now t).0.should_fire ≡ true
    → All (IsHeld cfg agent (now / 1000)) events
    → All (λ fired. fired ≡ false) (nudges cfg agent events (try_nudge cfg agent urgency now t).1)
window_holds cfg agent urgency now events t on recent fires held =
    let same = nudge_on cfg agent urgency now t on in
    let fired : (nudge_row cfg agent urgency now (lookup agent t) t).0.should_fire ≡ true =
      rw same at fires in
    let later : 0 < (now / 1000) = omega (arith, recent) in
    rw same (
      nudges_held cfg agent (now / 1000) events _ on
        (fires-IsNudged cfg agent urgency now (lookup agent t) t fired later) held)
