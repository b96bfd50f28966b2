-- ===== src/Grouping/Keys.antt =====
-- Every group stands under its own key (the Map groups of grouping/index.ts).
use threadwork.Prelude.{
  ℕ, ◌+◌, ◌≡◌, refl, String, false, Option, none, some, List, [], ◌∷◌, arith, All, ltb, Bool-cases,
  inl, inr, or_else, str_eq, eq_iff, length, ◌∙◌, sym, ◌==◌, leb,
}
use threadwork.Prelude.Store.{Store, lookup, insert, lookup-insert}
use threadwork.Grouping.{
  GroupState, GroupMessage, GroupingEngine, AlertInput, ingest_group, clear_member, synced,
  new_group, key_of, compute_group_key, with_group, ingest, mark_inactive, sync_active_members,
  kept_group, tick_group, tick_groups, tick_active, tick_clear, tick, flushed, all_clear_time,
  active_members, should_flush, build_group_message, resolved_message,
}
use threadwork.Grouping.Owed.{ingest_cases, clear_cases}
use threadwork.Grouping.Calls.{Call, ingests, marks, syncs, ticks, step}

-- Every group stands under its own key, once.
unfoldable pub IsKeyed : Store GroupState → Type 0
IsKeyed [] = Unit
IsKeyed (entry ∷ rest) = (entry.1.group_key ≡ entry.0) × (lookup entry.0 rest ≡ none) × IsKeyed rest

insert-IsKeyed :
    (key : String) (g : GroupState) (groups : Store GroupState)
    → g.group_key ≡ key
    → IsKeyed groups
    → IsKeyed (insert key g groups)
unfolding insert lookup IsKeyed
insert-IsKeyed key g [] keyed h = (keyed, refl, tt)
insert-IsKeyed key g ((k, x) ∷ rest) keyed (own, once, later) = elim (Bool-cases (str_eq k key)) [
  | inl hit ↦
      let same : k ≡ key = ground (arith, eq_iff k key, hit) in
      rw hit (keyed, rw (sym same) once, later)
  | inr miss ↦
      let apart : str_eq key k ≡ false = ground (arith, eq_iff k key, eq_iff key k, miss) in
      rw miss
        (own, lookup-insert key k g rest ∙ rw apart once, insert-IsKeyed key g rest keyed later)
]

kept-IsKeyed :
    (k : String) (o : Option GroupState) (rest : Store GroupState)
    → ((u : GroupState) → o ≡ some u → u.group_key ≡ k)
    → lookup k rest ≡ none
    → IsKeyed rest
    → IsKeyed (kept_group k o rest)
unfolding IsKeyed
kept-IsKeyed k none rest own once later = later
kept-IsKeyed k (some u) rest own once later = (own u refl, once, later)

kept-missing :
    (key k : String) (o : Option GroupState) (rest : Store GroupState)
    → str_eq k key ≡ false
    → lookup key rest ≡ none
    → lookup key (kept_group k o rest) ≡ none
unfolding lookup
kept-missing key k none rest miss e = e
kept-missing key k (some x) rest miss e = rw miss e

pub missing-cons :
    (key k : String) (x : GroupState) (rest : Store GroupState)
    → lookup key ((k, x) ∷ rest) ≡ none
    → (str_eq k key ≡ false) × (lookup key rest ≡ none)
unfolding lookup
missing-cons key k x rest e = elim (Bool-cases (str_eq k key)) [
  | inl hit ↦ let no : some x ≡ none = rw hit at e in cc
  | inr miss ↦ (miss, rw miss at e)
]

tick_groups-missing :
    (e : GroupingEngine) (now : ℕ) (key : String) (groups : Store GroupState)
    → lookup key groups ≡ none
    → lookup key (tick_groups e now groups).0 ≡ none
unfolding tick_groups lookup
tick_groups-missing e now key [] missing = refl
tick_groups-missing e now key ((k, x) ∷ rest) missing =
    let (miss, later) = missing-cons key k x rest missing in
    kept-missing key k (tick_group e now k x).0 (tick_groups e now rest).0 miss
      (tick_groups-missing e now key rest later)

-- What a turn leaves of the group has its key, and its messages bear the key.
abbrev pub IsOwn : String → Option GroupState → List GroupMessage → Type 0
IsOwn key left told =
    ((u : GroupState) → left ≡ some u → u.group_key ≡ key)
    × (All (λ (m : GroupMessage). m.group_key ≡ key) told)

left_own :
    (key : String) (g u : GroupState) → g.group_key ≡ key → some g ≡ some u → u.group_key ≡ key
left_own key g u keyed e = let same : g ≡ u = cc in rw (sym same) keyed

clear-IsOwn :
    (e : GroupingEngine) (now : ℕ) (key : String) (g : GroupState)
    → g.group_key ≡ key
    → IsOwn key (tick_clear e now key g).0 (tick_clear e now key g).1
unfolding tick_clear resolved_message
clear-IsOwn e now key g keyed =
    let since = or_else g.all_clear_at (all_clear_time now g.members 0) in
    elim (Bool-cases (leb (since + e.resolved_grace_sec) now)) [
      | inr early ↦
          rw early
            (λ u same. left_own key (record g { all_clear_at = some since }) u keyed same, tt)
      | inl late ↦ elim (Bool-cases g.has_been_flushed) [
        | inl told ↦ rw (late, told) (λ u same. cc, (refl, tt))
        | inr silent ↦ rw (late, silent) (λ u same. cc, tt)
      ]
    ]

active-IsOwn :
    (e : GroupingEngine) (now : ℕ) (key : String) (g : GroupState)
    → g.group_key ≡ key
    → IsOwn key (tick_active e now g).0 (tick_active e now g).1
unfolding tick_active build_group_message
active-IsOwn e now key g keyed =
    let busy : GroupState = record g { all_clear_at = none } in
    elim (Bool-cases (should_flush e now busy)) [
      | inl h ↦ rw h (λ u same. left_own key (flushed now busy) u keyed same, (keyed, tt))
      | inr h ↦ rw h (λ u same. left_own key busy u keyed same, tt)
    ]

pub turn-IsOwn :
    (e : GroupingEngine) (now : ℕ) (key : String) (g : GroupState)
    → g.group_key ≡ key
    → IsOwn key (tick_group e now key g).0 (tick_group e now key g).1
unfolding tick_group
turn-IsOwn e now key g keyed = elim (Bool-cases (length (active_members g) == 0)) [
  | inr busy ↦ rw busy (active-IsOwn e now key g keyed)
  | inl idle ↦ elim (Bool-cases (ltb 0 (length g.members))) [
    | inl some_left ↦ rw (idle, some_left) (clear-IsOwn e now key g keyed)
    | inr empty ↦ rw (idle, empty) (λ u same. left_own key g u keyed same, tt)
  ]
]

tick_groups-IsKeyed :
    (e : GroupingEngine) (now : ℕ) (groups : Store GroupState)
    → IsKeyed groups
    → IsKeyed (tick_groups e now groups).0
unfolding tick_groups IsKeyed
tick_groups-IsKeyed e now [] h = tt
tick_groups-IsKeyed e now ((k, x) ∷ rest) (own, once, later) =
    kept-IsKeyed k (tick_group e now k x).0 (tick_groups e now rest).0 (turn-IsOwn e now k x own).0
      (tick_groups-missing e now k rest once) (tick_groups-IsKeyed e now rest later)

keyed-lookup :
    (key : String) (groups : Store GroupState) {g : GroupState}
    → IsKeyed groups
    → lookup key groups ≡ some g
    → g.group_key ≡ key
unfolding lookup IsKeyed
keyed-lookup key [] h found = cc
keyed-lookup key ((k, x) ∷ rest) {g} (own, once, later) found = elim (Bool-cases (str_eq k key)) [
  | inl hit ↦
      let same_key : k ≡ key = ground (arith, eq_iff k key, hit) in
      let is_x : some x ≡ some g = rw hit at found in
      let same : x ≡ g = cc in rw (sym same) (own ∙ same_key)
  | inr miss ↦ keyed-lookup key rest later (rw miss at found)
]

ingest-IsKeyed :
    (alert : AlertInput) (now : ℕ) (e : GroupingEngine)
    → IsKeyed e.groups
    → IsKeyed (ingest alert now e).groups
unfolding ingest new_group
ingest-IsKeyed alert now e h =
    insert-IsKeyed (key_of alert)
      (ingest_group alert now (or_else (lookup (key_of alert) e.groups) (new_group alert now)))
      e.groups (own (lookup (key_of alert) e.groups) refl) h
  where
    own :
        (o : Option GroupState)
        → lookup (key_of alert) e.groups ≡ o
        → (ingest_group alert now (or_else o (new_group alert now))).group_key ≡ key_of alert
    own none missing =
        ingest_cases (λ x. x.group_key ≡ key_of alert) alert now (new_group alert now)
          (λ members. refl) (λ members. refl)
    own (some g) found =
        let keyed = keyed-lookup (key_of alert) e.groups h found in
        ingest_cases (λ x. x.group_key ≡ key_of alert) alert now g (λ members. keyed)
          (λ members. keyed)

with_group-IsKeyed :
    (key : String) (f : GroupState → GroupState) (o : Option GroupState) (e : GroupingEngine)
    → ((g : GroupState) → (f g).group_key ≡ g.group_key)
    → lookup key e.groups ≡ o
    → IsKeyed e.groups
    → IsKeyed (with_group key f o e).groups
unfolding with_group
with_group-IsKeyed key f none e same missing h = h
with_group-IsKeyed key f (some g) e same found h =
    insert-IsKeyed key (f g) e.groups (same g ∙ keyed-lookup key e.groups h found) h

-- Every call keeps the groups under their keys.
pub step-IsKeyed :
    (now : ℕ) (c : Call) (e : GroupingEngine) → IsKeyed e.groups → IsKeyed (step now c e).0.groups
unfolding step mark_inactive sync_active_members tick
step-IsKeyed now (ingests alert) e h = ingest-IsKeyed alert now e h
step-IsKeyed now (marks state reason severity other) e h =
    with_group-IsKeyed (compute_group_key state reason severity)
      (λ g. clear_member other now (lookup other g.members) g)
      (lookup (compute_group_key state reason severity) e.groups) e
      (λ g. clear_cases (λ x. x.group_key ≡ g.group_key) other now g refl (λ members. refl)) refl h
step-IsKeyed now (syncs state reason severity active_agents) e h =
    with_group-IsKeyed (compute_group_key state reason severity) (synced active_agents now)
      (lookup (compute_group_key state reason severity) e.groups) e (λ g. refl) refl h
step-IsKeyed now ticks e h = tick_groups-IsKeyed e now e.groups h
