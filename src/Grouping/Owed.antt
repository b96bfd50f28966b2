-- ===== src/Grouping/Owed.antt =====
-- A group that owes a report on an agent (ingest and tick of grouping/index.ts).
use threadwork.Prelude.{
  ℕ, ◌+◌, ◌≤◌, ◌≡◌, refl, String, Bool, true, false, not, ◌&&◌, none, some, List, arith, any,
  Bool-cases, inl, inr, ◌⊎◌, str_eq, eq_iff, Option-cases, le→leb, max,
}
use threadwork.Prelude.Store.{lookup}
use threadwork.Grouping.{
  GroupState, GroupMessage, GroupingEngine, AlertInput, ingest_member, ingest_group, clear_member,
  synced, joined, tick_active, tick_group, should_flush, build_group_message,
}
use threadwork.Grouping.Members.{
  IsActive, named, named-active_members, active_nonempty, ingest-IsActive, clear-IsActive,
  synced-IsActive,
}

-- The group has not been flushed since the time.
abbrev pub IsDue : ℕ → GroupState → Type 0
IsDue t g =
    ((g.has_been_flushed ≡ false) × (g.created_at ≤ t))
    ⊎ ((g.has_been_flushed ≡ true) × (g.has_pending_new_member ≡ true) × (g.last_flushed_at ≤ t))

pub record Owed (key agent : String) (t : ℕ) (g : GroupState) : Type 0 where
  pub keyed : g.group_key ≡ key
  pub active : IsActive agent g
  pub due : IsDue t g

joined-IsDue : (t : ℕ) (g : GroupState) → IsDue t g → IsDue t (joined g)
joined-IsDue t g (inl (fresh, since)) = inl (fresh, since)
joined-IsDue t g (inr (old, pending, since)) = inr (old, rw old refl, since)

-- What an alert changes in a group: its members, and what joining changes.
pub ingest_cases {ℓ} :
    (P : GroupState → Type ℓ) (alert : AlertInput) (now : ℕ) (g : GroupState)
    → ((members : _) → P (record g { members = members }))
    → ((members : _) → P (joined (record g { members = members })))
    → P (ingest_group alert now g)
unfolding ingest_group ingest_member
ingest_cases P alert now g again anew = elim (Option-cases (lookup alert.agent g.members)) [
  | inl e ↦ rw e (anew _)
  | inr (m, e) ↦
      rw e (elim (Bool-cases m.is_active) [ inl h ↦ rw h (again _) | inr h ↦ rw h (anew _) ])
]

pub ingest-Owed :
    (key agent : String) (t : ℕ) (alert : AlertInput) (now : ℕ) (g : GroupState)
    → Owed key agent t g
    → Owed key agent t (ingest_group alert now g)
ingest-Owed key agent t alert now g o = record {
  keyed =
      ingest_cases (λ x. x.group_key ≡ key) alert now g (λ members. o.keyed) (λ members. o.keyed);
  active = ingest-IsActive agent alert now g o.active;
  due =
      ingest_cases (IsDue t) alert now g (λ members. o.due)
        (λ members. joined-IsDue t (record g { members = members }) o.due);
}

pub clear_cases {ℓ} :
    (P : GroupState → Type ℓ) (other : String) (now : ℕ) (g : GroupState)
    → P g
    → ((members : _) → P (record g { members = members }))
    → P (clear_member other now (lookup other g.members) g)
unfolding clear_member
clear_cases P other now g same changed = elim (Option-cases (lookup other g.members)) [
  | inl e ↦ rw e same
  | inr (m, e) ↦
      rw e (elim (Bool-cases m.is_active) [ inl h ↦ rw h (changed _) | inr h ↦ rw h same ])
]

pub clear-Owed :
    (key agent other : String) (t now : ℕ) (g : GroupState)
    → str_eq other agent ≡ false
    → Owed key agent t g
    → Owed key agent t (clear_member other now (lookup other g.members) g)
clear-Owed key agent other t now g apart o = record {
  keyed = clear_cases (λ x. x.group_key ≡ key) other now g o.keyed (λ members. o.keyed);
  active = clear-IsActive agent other now g apart o.active;
  due = clear_cases (IsDue t) other now g o.due (λ members. o.due);
}

pub synced-Owed :
    (key agent : String) (t : ℕ) (active_agents : List String) (now : ℕ) (g : GroupState)
    → any (str_eq agent) active_agents ≡ true
    → Owed key agent t g
    → Owed key agent t (synced active_agents now g)
synced-Owed key agent t active_agents now g listed o = record {
  keyed = o.keyed;
  active = synced-IsActive agent active_agents now g listed o.active;
  due = o.due;
}

abbrev pub is_report : String → String → GroupMessage → Bool
is_report key agent msg = str_eq msg.group_key key && not msg.is_resolved && named agent msg.agents

report_lem :
    (key agent : String) (t : ℕ) (g : GroupState)
    → Owed key agent t g
    → is_report key agent (build_group_message (record g { all_clear_at = none })) ≡ true
unfolding build_group_message
report_lem key agent t g o =
    let here : str_eq g.group_key key ≡ true = ground (arith, eq_iff g.group_key key, o.keyed) in
    rw (here, named-active_members agent g o.active) refl

-- A turn of the loop reports, or the report is still owed.
pub tick_group-Owed :
    (e : GroupingEngine) (now : ℕ) (key agent : String) (t : ℕ) (g : GroupState)
    → Owed key agent t g
    → (any (is_report key agent) (tick_group e now key g).1 ≡ true)
      ⊎ ((u : GroupState) × ((tick_group e now key g).0 ≡ some u) × Owed key agent t u)
unfolding tick_group tick_active
tick_group-Owed e now key agent t g o =
    let busy : GroupState = record g { all_clear_at = none } in
    elim (Bool-cases (should_flush e now busy)) [
      | inl h ↦
          inl (rw (active_nonempty agent g o.active, h) (rw (report_lem key agent t g o) refl))
      | inr h ↦ inr (
        busy,
        rw (active_nonempty agent g o.active, h) refl,
        record { keyed = o.keyed; active = o.active; due = o.due },
      )
    ]

due_flush :
    (e : GroupingEngine) (now t : ℕ) (g : GroupState)
    → IsDue t g
    → (t + max e.group_wait_sec e.group_interval_sec) ≤ now
    → should_flush e now g ≡ true
unfolding should_flush
due_flush e now t g (inl (fresh, since)) late =
    rw fresh (le→leb (g.created_at + e.group_wait_sec) now (omega (arith, since, late)))
due_flush e now t g (inr (old, pending, since)) late =
    let passed =
      le→leb (g.last_flushed_at + e.group_interval_sec) now (omega (arith, since, late)) in
    rw (old, pending, passed) refl

-- Late enough the turn reports.
pub tick_group-late :
    (e : GroupingEngine) (now : ℕ) (key agent : String) (t : ℕ) (g : GroupState)
    → Owed key agent t g
    → (t + max e.group_wait_sec e.group_interval_sec) ≤ now
    → any (is_report key agent) (tick_group e now key g).1 ≡ true
unfolding tick_group tick_active
tick_group-late e now key agent t g o late =
    let busy : GroupState = record g { all_clear_at = none } in
    rw (active_nonempty agent g o.active, due_flush e now t busy o.due late)
      (rw (report_lem key agent t g o) refl)
