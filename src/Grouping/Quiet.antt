-- ===== src/Grouping/Quiet.antt =====
-- The pause after a flush (tick of grouping/index.ts).
use threadwork.Prelude.{
  ℕ, ◌+◌, ◌<◌, ◌≡◌, refl, String, Bool, true, false, none, some, List, [], ◌∷◌, ◌++◌, arith, any,
  All, Bool-cases, inl, inr, str_eq, eq_iff, ap, min, leb,
}
use threadwork.Prelude.Store.{Store, lookup}
use threadwork.Grouping.{
  GroupState, GroupMessage, GroupingEngine, tick_group, tick_groups, tick_active, tick,
  should_flush, flushed,
}
use threadwork.Grouping.Members.{
  IsActive, active_nonempty, ingest-IsActive, clear-IsActive, synced-IsActive,
}
use threadwork.Grouping.Owed.{ingest_cases, clear_cases}
use threadwork.Grouping.Ticks.{tick_groups-stays}
use threadwork.Grouping.Calls.{
  Has, IsStable, Call, ingests, marks, syncs, ticks, step, run, spares, ingest-Has, marks-Has,
  syncs-Has,
}
use threadwork.Grouping.Keys.{IsKeyed, turn-IsOwn, missing-cons, step-IsKeyed}

abbrev bears : String → GroupMessage → Bool
bears key m = str_eq m.group_key key

any-append_false {ℓ} :
    {A : Type ℓ} (p : A → Bool) (xs ys : List A)
    → any p xs ≡ false
    → any p ys ≡ false
    → any p (xs ++ ys) ≡ false
any-append_false p [] ys e h = h
any-append_false p (x ∷ xs) ys e h = elim (Bool-cases (p x)) [
  | inl bad ↦ let no : true ≡ false = rw bad at e in cc
  | inr good ↦ rw good (any-append_false p xs ys (rw good at e) h)
]

told_other :
    (k key : String) (told : List GroupMessage)
    → All (λ (m : GroupMessage). m.group_key ≡ k) told
    → str_eq k key ≡ false
    → any (bears key) told ≡ false
told_other k key [] h apart = refl
told_other k key (m ∷ told) (of_m, h) apart = rw (of_m, apart) (told_other k key told h apart)

-- No message for a key that no group has.
untold :
    (e : GroupingEngine) (now : ℕ) (key : String) (groups : Store GroupState)
    → IsKeyed groups
    → lookup key groups ≡ none
    → any (bears key) (tick_groups e now groups).1 ≡ false
unfolding tick_groups IsKeyed
untold e now key [] h missing = refl
untold e now key ((k, x) ∷ rest) (own, once, later) missing =
    let (apart, missing_later) = missing-cons key k x rest missing in
    any-append_false (bears key) (tick_group e now k x).1 (tick_groups e now rest).1
      (told_other k key (tick_group e now k x).1 (turn-IsOwn e now k x own).1 apart)
      (untold e now key rest later missing_later)

tick_groups-silent :
    (e : GroupingEngine) (now : ℕ) (key : String) (groups : Store GroupState) (g : GroupState)
    → IsKeyed groups
    → lookup key groups ≡ some g
    → (tick_group e now key g).1 ≡ []
    → any (bears key) (tick_groups e now groups).1 ≡ false
unfolding tick_groups lookup IsKeyed
tick_groups-silent e now key [] g h found silent = cc
tick_groups-silent e now key ((k, x) ∷ rest) g (own, once, later) found silent =
    elim (Bool-cases (str_eq k key)) [
      | inl hit ↦
          let same_key : k ≡ key = ground (arith, eq_iff k key, hit) in
          let is_x : some x ≡ some g = rw hit at found in
          let same : x ≡ g = cc in
          let here : (tick_group e now k x).1 ≡ [] = rw (same_key, same) silent in
          any-append_false (bears key) (tick_group e now k x).1 (tick_groups e now rest).1
            (ap (any (bears key)) here) (untold e now key rest later (rw same_key at once))
      | inr miss ↦
          any-append_false (bears key) (tick_group e now k x).1 (tick_groups e now rest).1
            (told_other k key (tick_group e now k x).1 (turn-IsOwn e now k x own).1 miss)
            (tick_groups-silent e now key rest g later (rw miss at found) silent)
    ]

-- The group has been flushed at the time, and the agent is an active member.
pub record Rested (agent : String) (t : ℕ) (g : GroupState) : Type 0 where
  pub told : g.has_been_flushed ≡ true
  pub last : g.last_flushed_at ≡ t
  pub active : IsActive agent g

Rested-IsStable : (agent : String) (t : ℕ) → IsStable (Rested agent t) agent
Rested-IsStable agent t = record {
  of_ingest = λ alert now g r. record {
    told = ingest_cases (λ x. x.has_been_flushed ≡ true) alert now g (λ ms. r.told) (λ ms. r.told);
    last = ingest_cases (λ x. x.last_flushed_at ≡ t) alert now g (λ ms. r.last) (λ ms. r.last);
    active = ingest-IsActive agent alert now g r.active;
  };
  of_clear = λ other now g apart r. record {
    told = clear_cases (λ x. x.has_been_flushed ≡ true) other now g r.told (λ ms. r.told);
    last = clear_cases (λ x. x.last_flushed_at ≡ t) other now g r.last (λ ms. r.last);
    active = clear-IsActive agent other now g apart r.active;
  };
  of_sync = λ active_agents now g listed r. record {
    told = r.told;
    last = r.last;
    active = synced-IsActive agent active_agents now g listed r.active;
  };
}

early_flush :
    (e : GroupingEngine) (now : ℕ) (g : GroupState)
    → g.has_been_flushed ≡ true
    → now < (g.last_flushed_at + min e.group_interval_sec e.repeat_interval_sec)
    → should_flush e now g ≡ false
unfolding should_flush
early_flush e now g told early =
    let a : leb (g.last_flushed_at + e.group_interval_sec) now ≡ false = ground (arith, early) in
    let b : leb (g.last_flushed_at + e.repeat_interval_sec) now ≡ false = ground (arith, early) in
    rw (told, a, b) (ground arith)

turn_at_rest :
    (e : GroupingEngine) (now : ℕ) (key agent : String) (t : ℕ) (g : GroupState)
    → Rested agent t g
    → now < (t + min e.group_interval_sec e.repeat_interval_sec)
    → tick_group e now key g ≡ (some (record g { all_clear_at = none }), [])
unfolding tick_group tick_active
turn_at_rest e now key agent t g r early =
    let busy : GroupState = record g { all_clear_at = none } in
    let last = r.last in
    rw (active_nonempty agent g r.active, early_flush e now busy r.told (rw last early)) refl

step-Rested :
    (key agent : String) (t wait interval again now : ℕ) (c : Call) (e : GroupingEngine)
    → IsKeyed e.groups
    → Has (Rested agent t) key wait interval again e
    → spares key agent c ≡ true
    → now < (t + min interval again)
    → (any (bears key) (step now c e).1 ≡ false)
      × Has (Rested agent t) key wait interval again (step now c e).0
unfolding step tick
step-Rested key agent t wait interval again now (ingests alert) e h o ok early = (
  refl,
  ingest-Has (Rested agent t) key agent wait interval again (Rested-IsStable agent t) alert now e o,
)
step-Rested key agent t wait interval again now (marks state reason severity other) e h o ok early =
    (
      refl,
      marks-Has (Rested agent t) key agent wait interval again (Rested-IsStable agent t) state
          reason severity other now e o ok,
    )
step-Rested key agent t wait interval again now (syncs state reason severity active_agents) e h o ok
      early =
    (
      refl,
      syncs-Has (Rested agent t) key agent wait interval again (Rested-IsStable agent t) state
          reason severity active_agents now e o ok,
    )
step-Rested key agent t wait interval again now ticks e h o ok early =
    let intervals = o.intervals in
    let repeats = o.repeats in
    let turn = turn_at_rest e now key agent t o.group o.holds (rw (intervals, repeats) early) in
    (
      tick_groups-silent e now key e.groups o.group h o.found (ap (λ x. x.1) turn),
      record {
        group = record o.group { all_clear_at = none };
        found =
            tick_groups-stays e now key e.groups o.group (record o.group { all_clear_at = none })
              o.found (ap (λ x. x.0) turn);
        holds = record { told = o.holds.told; last = o.holds.last; active = o.holds.active };
        waits = o.waits;
        intervals = o.intervals;
        repeats = o.repeats;
      },
    )

run-Rested :
    (key agent : String) (t wait interval again : ℕ) (calls : List (ℕ × Call)) (e : GroupingEngine)
    → IsKeyed e.groups
    → Has (Rested agent t) key wait interval again e
    → All (λ (c : ℕ × Call). (c.0 < (t + min interval again)) × (spares key agent c.1 ≡ true)) calls
    → any (bears key) (run calls e).1 ≡ false
unfolding run
run-Rested key agent t wait interval again [] e h o ok = refl
run-Rested key agent t wait interval again ((now, c) ∷ later) e h o (of_c, ok) =
    let (silent, o') = step-Rested key agent t wait interval again now c e h o of_c.1 of_c.0 in
    any-append_false (bears key) (step now c e).1 (run later (step now c e).0).1 silent (
      run-Rested key agent t wait interval again later (step now c e).0 (step-IsKeyed now c e h) o'
        ok)

-- The turn of a group that is due leaves it flushed at the time.
turn_of_due :
    (e : GroupingEngine) (t : ℕ) (key agent : String) (g : GroupState)
    → IsActive agent g
    → should_flush e t g ≡ true
    → (tick_group e t key g).0 ≡ some (flushed t (record g { all_clear_at = none }))
unfolding tick_group tick_active should_flush
turn_of_due e t key agent g active due = rw (active_nonempty agent g active) (rw due refl)

-- A flush is followed by a pause. Where every group stands under its own key: after a tick at which a
-- group with an active member was due to be flushed, whatever calls follow, as long as none of them
-- says that the member has left the group, and all of them come before the shorter of
-- group_interval and repeat_interval has passed since the tick, no message of the group is sent.
pub flush_pause :
    (key agent : String) (t : ℕ) (g : GroupState) (calls : List (ℕ × Call)) (e : GroupingEngine)
    → IsKeyed e.groups
    → lookup key e.groups ≡ some g
    → IsActive agent g
    → should_flush e t g ≡ true
    → All
        (λ (c : ℕ × Call).
          (c.0 < (t + min e.group_interval_sec e.repeat_interval_sec))
          × (spares key agent c.1 ≡ true))
        calls
    → any (λ (m : GroupMessage). str_eq m.group_key key) (run calls (tick t e).0).1 ≡ false
unfolding tick step
flush_pause key agent t g calls e h found active due ok =
    let told : GroupState = flushed t (record g { all_clear_at = none }) in
    run-Rested key agent t e.group_wait_sec e.group_interval_sec e.repeat_interval_sec calls
      (tick t e).0 (step-IsKeyed t ticks e h)
      (record {
        group = told;
        found =
            tick_groups-stays e t key e.groups g told found
              (turn_of_due e t key agent g active due);
        holds = record { told = refl; last = refl; active = active };
        waits = refl;
        intervals = refl;
        repeats = refl;
      })
      ok
