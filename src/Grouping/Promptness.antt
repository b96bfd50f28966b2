-- ===== src/Grouping/Promptness.antt =====
-- The report of a new member (ingest and tick of grouping/index.ts).
use threadwork.Prelude.{
  ℕ, ◌+◌, ◌≤◌, ◌≡◌, refl, String, true, false, none, some, List, [], ◌∷◌, ◌++◌, arith, any, every,
  Bool-cases, inl, inr, ◌⊎◌, or_else, ap, ◌∙◌, max, any-append_left, any-append_right,
}
use threadwork.Prelude.Store.{lookup, insert, lookup-insert_self}
use threadwork.Grouping.{
  MemberEntry, GroupState, GroupingEngine, AlertInput, ingest_member, ingest_group, new_group,
  new_member, seen_again, key_of, ingest, tick, joined,
}
use threadwork.Grouping.Owed.{
  Owed, IsDue, ingest-Owed, clear-Owed, synced-Owed, is_report, tick_group-Owed, tick_group-late,
}
use threadwork.Grouping.Ticks.{tick_groups-reports, tick_groups-stays}
use threadwork.Grouping.Calls.{
  Has, IsStable, Call, ingests, marks, syncs, ticks, step, run, spares, ingest-Has, marks-Has,
  syncs-Has,
}

Owed-IsStable : (key agent : String) (t : ℕ) → IsStable (Owed key agent t) agent
Owed-IsStable key agent t = record {
  of_ingest = λ alert now g o. ingest-Owed key agent t alert now g o;
  of_clear = λ other now g apart o. clear-Owed key agent other t now g apart o;
  of_sync = λ active_agents now g listed o. synced-Owed key agent t active_agents now g listed o;
}

-- The engine owes a report on the agent, with its waits.
abbrev Owes : String → String → ℕ → ℕ → ℕ → ℕ → GroupingEngine → Type 0
Owes key agent t wait interval again e = Has (Owed key agent t) key wait interval again e

tick-Owes :
    (key agent : String) (t wait interval again now : ℕ) (e : GroupingEngine)
    → Owes key agent t wait interval again e
    → (any (is_report key agent) (tick now e).1 ≡ true)
      ⊎ Owes key agent t wait interval again (tick now e).0
unfolding tick
tick-Owes key agent t wait interval again now e o =
    elim (tick_group-Owed e now key agent t o.group o.holds) [
      | inl told ↦
          inl (tick_groups-reports e now key (is_report key agent) e.groups o.group o.found told)
      | inr (u, left, owed) ↦ inr record {
        group = u;
        found = tick_groups-stays e now key e.groups o.group u o.found left;
        holds = owed;
        waits = o.waits;
        intervals = o.intervals;
        repeats = o.repeats;
      }
    ]

step-Owes :
    (key agent : String) (t wait interval again now : ℕ) (c : Call) (e : GroupingEngine)
    → Owes key agent t wait interval again e
    → spares key agent c ≡ true
    → (any (is_report key agent) (step now c e).1 ≡ true)
      ⊎ Owes key agent t wait interval again (step now c e).0
unfolding step
step-Owes key agent t wait interval again now (ingests alert) e o ok = inr (
    ingest-Has (Owed key agent t) key agent wait interval again (Owed-IsStable key agent t) alert
      now e o)
step-Owes key agent t wait interval again now (marks state reason severity other) e o ok = inr (
    marks-Has (Owed key agent t) key agent wait interval again (Owed-IsStable key agent t) state
      reason severity other now e o ok)
step-Owes key agent t wait interval again now (syncs state reason severity active_agents) e o ok =
    inr (
      syncs-Has (Owed key agent t) key agent wait interval again (Owed-IsStable key agent t) state
        reason severity active_agents now e o ok)
step-Owes key agent t wait interval again now ticks e o ok =
    tick-Owes key agent t wait interval again now e o

-- The report comes with a tick of the calls, or it is still owed after them.
run-Owes :
    (key agent : String) (t wait interval again : ℕ) (calls : List (ℕ × Call)) (e : GroupingEngine)
    → Owes key agent t wait interval again e
    → every (λ (c : ℕ × Call). spares key agent c.1) calls ≡ true
    → (any (is_report key agent) (run calls e).1 ≡ true)
      ⊎ Owes key agent t wait interval again (run calls e).0
unfolding run
run-Owes key agent t wait interval again [] e o ok = inr o
run-Owes key agent t wait interval again ((now, c) ∷ later) e o ok =
    elim (Bool-cases (spares key agent c)) [
      | inr bad ↦ let no : false ≡ true = rw bad at ok in cc
      | inl good ↦ elim (step-Owes key agent t wait interval again now c e o good) [
        | inl told ↦ inl (
            any-append_left (is_report key agent) (step now c e).1 (run later (step now c e).0).1
              told)
        | inr o' ↦
            elim (run-Owes key agent t wait interval again later (step now c e).0 o'
              (rw good at ok)) [
                | inl told ↦ inl (
                    any-append_right (is_report key agent) (step now c e).1
                      (run later (step now c e).0).1 told)
                | inr o'' ↦ inr o''
              ]
      ]
    ]

tick_late :
    (key agent : String) (t wait interval again now : ℕ) (e : GroupingEngine)
    → Owes key agent t wait interval again e
    → (t + max wait interval) ≤ now
    → any (is_report key agent) (tick now e).1 ≡ true
unfolding tick
tick_late key agent t wait interval again now e o late =
    tick_groups-reports e now key (is_report key agent) e.groups o.group o.found (
      tick_group-late e now key agent t o.group o.holds
        (let waits = o.waits in let intervals = o.intervals in rw (waits, intervals) late))

-- The agent is no active member of the group of the alert, and the group has no time later than the
-- alert.
abbrev pub IsNews : AlertInput → ℕ → GroupingEngine → Type 0
IsNews alert t e =
    (lookup (key_of alert) e.groups ≡ none)
    ⊎ ((g : GroupState) × (lookup (key_of alert) e.groups ≡ some g)
        × (g.group_key ≡ key_of alert)
        × (g.created_at ≤ t)
        × (g.last_flushed_at ≤ t)
        × ((lookup alert.agent g.members ≡ none)
            ⊎ ((m : MemberEntry) × (lookup alert.agent g.members ≡ some m)
                × (m.is_active ≡ false)
                × (m.agent ≡ alert.agent))))

joined-IsDue :
    (t : ℕ) (g : GroupState) → g.created_at ≤ t → g.last_flushed_at ≤ t → IsDue t (joined g)
joined-IsDue t g made last = elim (Bool-cases g.has_been_flushed) [
  | inl old ↦ inr (old, rw old refl, last)
  | inr fresh ↦ inl (fresh, made)
]

joins :
    (alert : AlertInput) (t : ℕ) (m : MemberEntry) (g : GroupState)
    → g.group_key ≡ key_of alert
    → g.created_at ≤ t
    → g.last_flushed_at ≤ t
    → m.is_active ≡ true
    → m.agent ≡ alert.agent
    → Owed
        (key_of alert)
        alert.agent
        t
        (joined (record g { members = insert alert.agent m g.members }))
joins alert t m g keyed made last active same = record {
  keyed = keyed;
  active = (m, lookup-insert_self alert.agent m g.members, active, same);
  due = joined-IsDue t (record g { members = insert alert.agent m g.members }) made last;
}

news-Owed :
    (alert : AlertInput) (t : ℕ) (g : GroupState)
    → g.group_key ≡ key_of alert
    → g.created_at ≤ t
    → g.last_flushed_at ≤ t
    → (lookup alert.agent g.members ≡ none)
      ⊎ ((m : MemberEntry) × (lookup alert.agent g.members ≡ some m)
          × (m.is_active ≡ false)
          × (m.agent ≡ alert.agent))
    → Owed (key_of alert) alert.agent t (ingest_group alert t g)
unfolding ingest_group ingest_member
news-Owed alert t g keyed made last (inl missing) =
    rw missing (joins alert t (new_member alert.agent t) g keyed made last refl refl)
news-Owed alert t g keyed made last (inr (m, found, idle, same)) =
    rw (found, idle) (joins alert t (seen_again t m) g keyed made last refl same)

ingested :
    (alert : AlertInput) (t : ℕ) (e : GroupingEngine) (g : GroupState)
    → or_else (lookup (key_of alert) e.groups) (new_group alert t) ≡ g
    → Owed (key_of alert) alert.agent t (ingest_group alert t g)
    → Owes
        (key_of alert)
        alert.agent
        t
        e.group_wait_sec
        e.group_interval_sec
        e.repeat_interval_sec
        (ingest alert t e)
unfolding ingest
ingested alert t e g same owed = record {
  group = ingest_group alert t g;
  found =
      lookup-insert_self (key_of alert)
        (ingest_group alert t (or_else (lookup (key_of alert) e.groups) (new_group alert t)))
        e.groups
      ∙ ap (λ x. some (ingest_group alert t x)) same;
  holds = owed;
  waits = refl;
  intervals = refl;
  repeats = refl;
}

news-Owes :
    (alert : AlertInput) (t : ℕ) (e : GroupingEngine)
    → IsNews alert t e
    → Owes
        (key_of alert)
        alert.agent
        t
        e.group_wait_sec
        e.group_interval_sec
        e.repeat_interval_sec
        (ingest alert t e)
unfolding new_group lookup
news-Owes alert t e (inl missing) =
    ingested alert t e (new_group alert t) (ap (λ o. or_else o (new_group alert t)) missing)
      (news-Owed alert t (new_group alert t) refl (omega arith) (omega arith) (inl refl))
news-Owes alert t e (inr (g, found, keyed, made, last, outside)) =
    ingested alert t e g (ap (λ o. or_else o (new_group alert t)) found)
      (news-Owed alert t g keyed made last outside)

-- Every new member is reported. An alert of an agent that is no active member of the group: whatever
-- calls follow it, at whatever times, unless one of them says that the agent has left the group, a
-- message of the group that names the agent comes with a tick among them, or with a tick after
-- them that is at least the longer of group_wait and group_interval later than the alert.
pub new_member_reported :
    (alert : AlertInput) (t : ℕ) (calls : List (ℕ × Call)) (now : ℕ) (e : GroupingEngine)
    → IsNews alert t e
    → every (λ (c : ℕ × Call). spares (key_of alert) alert.agent c.1) calls ≡ true
    → (t + max e.group_wait_sec e.group_interval_sec) ≤ now
    → let after = run calls (ingest alert t e) in
      any (is_report (key_of alert) alert.agent) (after.1 ++ (tick now after.0).1) ≡ true
new_member_reported alert t calls now e news ok late =
    let key = key_of alert in
    let agent = alert.agent in
    let after = run calls (ingest alert t e) in
    elim (run-Owes key agent t e.group_wait_sec e.group_interval_sec e.repeat_interval_sec calls
      (ingest alert t e) (news-Owes alert t e news) ok) [
        | inl told ↦ any-append_left (is_report key agent) after.1 (tick now after.0).1 told
        | inr o ↦ any-append_right (is_report key agent) after.1 (tick now after.0).1 (
            tick_late key agent t e.group_wait_sec e.group_interval_sec e.repeat_interval_sec now
              after.0 o late)
      ]
