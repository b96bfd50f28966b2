-- ===== src/Restart/Child.antt =====
-- The children of the watchdog (ChildRestartCap of restart-cap/tracker.ts): a cap holds until a reset.
use mathlib.Core.Path.{subst}
use threadwork.Prelude.{
  sym, ℕ, ◌≡◌, refl, String, Bool, true, false, not, some, List, [], ◌∷◌, length, every, inl, inr,
  Bool-cases, Option-cases, str_eq, eq_iff, ap, ◌∙◌,
}
use threadwork.Prelude.Store.{lookup, insert, lookup-insert, lookup-remove, lookup-insert_self}
use threadwork.Restart.{
  ChildState, ChildVerdict, ChildRestartCap, child_state, restart_child, on_child_restart,
  is_capped, reset,
}

pub data Event : Type 0 where
  restart : String → ℕ → Event
  reset_of : String → Event

unfoldable pub apply : Event → ChildRestartCap → ChildRestartCap
unfolding on_child_restart reset
apply (restart child now) c = (on_child_restart child now c).1
apply (reset_of child) c = reset child c

unfoldable pub run : List Event → ChildRestartCap → ChildRestartCap
unfolding apply
run [] c = c
run (e ∷ es) c = run es (apply e c)

abbrev pub is_reset_of : String → Event → Bool
is_reset_of child (restart other now) = false
is_reset_of child (reset_of other) = str_eq other child

restart_capped :
    (r t now : ℕ) (s : ChildState)
    → s.capped ≡ true
    → restart_child r t now s ≡ (record { capped = true; count = length s.timestamps }, s)
unfolding restart_child
restart_capped r t now s e = rw e refl

capped_row :
    (child : String) (c : ChildRestartCap)
    → is_capped child c ≡ true
    → (s : ChildState) × (lookup child c.state ≡ some s) × (s.capped ≡ true)
unfolding is_capped
capped_row child c e = elim (Option-cases (lookup child c.state)) [
  | inl gone ↦ let bad : false ≡ true = rw (is_capped, gone) at e in cc
  | inr (s, found) ↦ (s, found, rw (is_capped, found) at e)
]

child_state-lookup :
    (child : String) (c : ChildRestartCap) (s : ChildState)
    → lookup child c.state ≡ some s
    → child_state child c ≡ s
unfolding child_state
child_state-lookup child c s e = rw (child_state, e) refl

-- A restart of a capped child changes nothing for it, and answers capped.
on_child_restart-capped :
    (child : String) (now : ℕ) (c : ChildRestartCap) (s : ChildState)
    → lookup child c.state ≡ some s
    → s.capped ≡ true
    → on_child_restart child now c ≡ (
      record { capped = true; count = length s.timestamps },
      record c { state = insert child s c.state },
    )
unfolding on_child_restart
on_child_restart-capped child now c s found e =
    rw (child_state-lookup child c s found, restart_capped c.max_r c.max_t_sec now s e) refl

restart_same :
    (child : String) (now : ℕ) (c : ChildRestartCap) (s : ChildState)
    → lookup child c.state ≡ some s
    → s.capped ≡ true
    → lookup child (on_child_restart child now c).1.state ≡ some s
restart_same child now c s found e =
    rw (on_child_restart-capped child now c s found e) (lookup-insert_self child s c.state)

restart_other :
    (other child : String) (now : ℕ) (c : ChildRestartCap)
    → str_eq other child ≡ false
    → lookup child (on_child_restart other now c).1.state ≡ lookup child c.state
unfolding on_child_restart
restart_other other child now c e = lookup-insert other child _ c.state ∙ rw e refl

apply_capped :
    (e : Event) (child : String) (c : ChildRestartCap) (s : ChildState)
    → lookup child c.state ≡ some s
    → s.capped ≡ true
    → is_reset_of child e ≡ false
    → lookup child (apply e c).state ≡ some s
unfolding apply reset
apply_capped (restart other now) child c s found is_held keeps =
    elim (Bool-cases (str_eq other child)) [
      | inl same ↦
          subst (λ i. lookup child (on_child_restart i now c).1.state ≡ some s)
            (sym ((eq_iff other child).0 same)) (restart_same child now c s found is_held)
      | inr other_child ↦ restart_other other child now c other_child ∙ found
    ]
apply_capped (reset_of other) child c s found is_held keeps =
    lookup-remove other child c.state ∙ rw (keeps, found) refl

run_capped :
    (es : List Event) (child : String) (c : ChildRestartCap) (s : ChildState)
    → lookup child c.state ≡ some s
    → s.capped ≡ true
    → every (λ e. not (is_reset_of child e)) es ≡ true
    → lookup child (run es c).state ≡ some s
unfolding run
run_capped [] child c s found is_held keeps = found
run_capped (e ∷ es) child c s found is_held keeps = elim (Bool-cases (is_reset_of child e)) [
  | inl bad ↦ let no : false ≡ true = rw bad at keeps in cc
  | inr fine ↦
      run_capped es child (apply e c) s (apply_capped e child c s found is_held fine) is_held
        (rw fine at keeps)
]

held_capped :
    (child : String) (c : ChildRestartCap) (s : ChildState)
    → lookup child c.state ≡ some s
    → s.capped ≡ true
    → is_capped child c ≡ true
unfolding is_capped
held_capped child c s found e = rw (is_capped, found) e

-- A capped child stays capped: after restarts of any children and resets of other children, in any
-- order and at any times, a restart of it is answered with capped, and its count does not grow.
pub capped_until_reset :
    (es : List Event) (child : String) (now : ℕ) (c : ChildRestartCap)
    → is_capped child c ≡ true
    → every (λ e. not (is_reset_of child e)) es ≡ true
    → let before = length (child_state child c).timestamps in
      (is_capped child (run es c) ≡ true)
      × ((on_child_restart child now (run es c)).0 ≡ record { capped = true; count = before })
capped_until_reset es child now c is_held keeps =
    let (s, found, e) = capped_row child c is_held in
    let still = run_capped es child c s found e keeps in
    let answer = on_child_restart-capped child now (run es c) s still e in
    (
      held_capped child (run es c) s still e,
      rw (child_state-lookup child c s found)
          (ap (λ (x : ChildVerdict × ChildRestartCap). x.0) answer),
    )
