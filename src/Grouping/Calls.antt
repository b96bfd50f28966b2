-- ===== src/Grouping/Calls.antt =====
-- Calls of the grouping engine in turn (grouping/index.ts), and what they leave owed.
use threadwork.Prelude.{
  ℕ, ◌≡◌, refl, String, Bool, true, false, not, ◌&&◌, ◌||◌, some, List, [], ◌∷◌, ◌++◌, arith, any,
  Bool-cases, inl, inr, or_else, str_eq, eq_iff, ◌∙◌, Option-cases, sym,
}
use threadwork.Prelude.Store.{Store, lookup, insert, lookup-insert}
use threadwork.Grouping.{
  GroupState, GroupMessage, GroupingEngine, AlertInput, ingest_group, clear_member, synced,
  new_group, key_of, compute_group_key, with_group, ingest, mark_inactive, sync_active_members,
  tick,
}

-- What holds of the group of the key, with the times that the engine has been given.
pub record Has (P : GroupState → Type 0) (key : String) (wait interval again : ℕ)
    (e : GroupingEngine) : Type 0 where
  pub group : GroupState
  pub found : lookup key e.groups ≡ some group
  pub holds : P group
  pub waits : e.group_wait_sec ≡ wait
  pub intervals : e.group_interval_sec ≡ interval
  pub repeats : e.repeat_interval_sec ≡ again

pub data Call : Type 0 where
  ingests : AlertInput → Call
  marks : String → String → String → String → Call
  syncs : String → String → String → List String → Call
  ticks : Call

unfoldable pub step : ℕ → Call → GroupingEngine → GroupingEngine × List GroupMessage
unfolding ingest mark_inactive sync_active_members tick
step now (ingests alert) e = (ingest alert now e, [])
step now (marks state reason severity agent) e =
    (mark_inactive state reason severity agent now e, [])
step now (syncs state reason severity active_agents) e =
    (sync_active_members state reason severity active_agents now e, [])
step now ticks e = tick now e

-- Calls in turn, and the messages of their ticks.
unfoldable pub run : List (ℕ × Call) → GroupingEngine → GroupingEngine × List GroupMessage
unfolding step
run [] e = (e, [])
run ((now, c) ∷ later) e =
    let out = step now c e in let rest = run later out.0 in (rest.0, out.1 ++ rest.1)

-- The call does not say that the agent has left the group.
unfoldable pub spares : String → String → Call → Bool
unfolding compute_group_key
spares key agent (ingests alert) = true
spares key agent (marks state reason severity other) =
    not (str_eq (compute_group_key state reason severity) key && str_eq other agent)
spares key agent (syncs state reason severity active_agents) =
    not (str_eq (compute_group_key state reason severity) key) || any (str_eq agent) active_agents
spares key agent ticks = true

-- What neither an alert nor the recovery of another agent changes.
pub record IsStable (P : GroupState → Type 0) (agent : String) : Type 0 where
  pub of_ingest :
      (alert : AlertInput) (now : ℕ) (g : GroupState) → P g → P (ingest_group alert now g)
  pub of_clear :
      (other : String) (now : ℕ) (g : GroupState)
      → str_eq other agent ≡ false
      → P g
      → P (clear_member other now (lookup other g.members) g)
  pub of_sync :
      (active_agents : List String) (now : ℕ) (g : GroupState)
      → any (str_eq agent) active_agents ≡ true
      → P g
      → P (synced active_agents now g)

module _ (P : GroupState → Type 0) (key agent : String) (wait interval again : ℕ)
    (stable : IsStable P agent) where
  -- A group that is changed in place.
  changed :
      (other : String) (g : GroupState) (e : GroupingEngine)
      → Has P key wait interval again e
      → (str_eq other key ≡ true → P g)
      → Has P key wait interval again (record e { groups = insert other g e.groups })
  changed other g e o own = elim (Bool-cases (str_eq other key)) [
    | inl h ↦ record {
      group = g;
      found = lookup-insert other key g e.groups ∙ rw h refl;
      holds = own h;
      waits = o.waits;
      intervals = o.intervals;
      repeats = o.repeats;
    }
    | inr h ↦ record {
      group = o.group;
      found = lookup-insert other key g e.groups ∙ rw h o.found;
      holds = o.holds;
      waits = o.waits;
      intervals = o.intervals;
      repeats = o.repeats;
    }
  ]

  -- The group of the key, where another name of the key was looked up.
  found_same :
      (other : String) (groups : Store GroupState) {g : GroupState}
      → lookup key groups ≡ some g
      → str_eq other key ≡ true
      → lookup other groups ≡ some g
  found_same other groups found e =
      let same : other ≡ key = ground (arith, eq_iff other key, e) in rw same found

  pub ingest-Has :
      (alert : AlertInput) (now : ℕ) (e : GroupingEngine)
      → Has P key wait interval again e
      → Has P key wait interval again (ingest alert now e)
  unfolding ingest
  ingest-Has alert now e o =
      changed (key_of alert)
        (ingest_group alert now (or_else (lookup (key_of alert) e.groups) (new_group alert now))) e
        o
        (λ h.
          rw (found_same (key_of alert) e.groups o.found h)
            (stable.of_ingest alert now o.group o.holds))

  with_group-Has :
      (other : String) (f : GroupState → GroupState) (e : GroupingEngine)
      → Has P key wait interval again e
      → ((g : GroupState) → str_eq other key ≡ true → P g → P (f g))
      → Has P key wait interval again (with_group other f (lookup other e.groups) e)
  unfolding with_group
  with_group-Has other f e o own = elim (Option-cases (lookup other e.groups)) [
    | inl missing ↦ rw missing o
    | inr (g, here) ↦ rw here (
        changed other (f g) e o (λ h.
          let same : some o.group ≡ some g = sym (found_same other e.groups o.found h) ∙ here in
          let same_group : o.group ≡ g = cc in own g h (rw (sym same_group) o.holds)))
  ]

  pub marks-Has :
      (state reason severity other : String) (now : ℕ) (e : GroupingEngine)
      → Has P key wait interval again e
      → spares key agent (marks state reason severity other) ≡ true
      → Has P key wait interval again (mark_inactive state reason severity other now e)
  unfolding mark_inactive spares
  marks-Has state reason severity other now e o ok =
      with_group-Has (compute_group_key state reason severity)
        (λ g. clear_member other now (lookup other g.members) g) e o
        (λ g h holds.
          let apart : str_eq other agent ≡ false = ground (arith, rw h at ok) in
          stable.of_clear other now g apart holds)

  pub syncs-Has :
      (state reason severity : String) (active_agents : List String) (now : ℕ) (e : GroupingEngine)
      → Has P key wait interval again e
      → spares key agent (syncs state reason severity active_agents) ≡ true
      → Has P key wait interval again
          (sync_active_members state reason severity active_agents now e)
  unfolding sync_active_members spares
  syncs-Has state reason severity active_agents now e o ok =
      with_group-Has (compute_group_key state reason severity) (synced active_agents now) e o
        (λ g h holds. stable.of_sync active_agents now g (rw h at ok) holds)
