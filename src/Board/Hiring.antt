-- ===== src/Board/Hiring.antt =====
-- What delegateTask and createSubagentTask of db.ts insert, and when they refuse.
use threadwork.Prelude.{
  ℕ, ◌+◌, ◌≡◌, ◌↔◌, refl, Bool, true, false, not, ◌&&◌, Option, none, some, ◌∷◌, inl, inr,
  if◌then◌else◌, Option-cases, ap, ◌∙◌, sym, str_eq,
}
use threadwork.Board.Task.{Task, Board, Status, get_row, is_in_progress, is_open}
use threadwork.Board.Create.{
  Call, Error, returns, throws, ◌>>=◌, DelegateTaskInput, delegated_row, delegate_task, insert_row,
  is_unsupervised, check_parent, brief_fits, throw_unless, brief_too_large, parent_not_in_progress,
  prep_and_addendum, addendum_parent_open, prep_parent_closed,
}
use threadwork.Board.Subagents.{
  SubagentInput, create_subagent_task, subagent_row, check_subagent_parent, prep_ok, find_parent,
}

-- A check in front of a step that yields a result: the result comes out only if the check passes.
>>=-returns {ℓ κ} :
    {A : Type ℓ} {B : Type κ} (m : Call A) (f : A → Call B) (b : B)
    → (m >>= f) ≡ returns b
    → (a : A) × (m ≡ returns a) × (f a ≡ returns b)
>>=-returns (returns a) f b e = (a, refl, e)
>>=-returns (throws x) f b e = cc

throw_unless-returns : (c : Bool) (x : Error) → throw_unless c x ≡ returns tt → c ≡ true
throw_unless-returns true x e = refl
throw_unless-returns false x e = cc

returns-injective {ℓ} : {A : Type ℓ} (a b : A) → returns a ≡ returns b → a ≡ b
returns-injective a b e = cc

-- A parent, if one is named, is there and in progress.
abbrev pub has_running_parent : Option ℕ → Board → Bool
has_running_parent none b = true
has_running_parent (some p) b = elim (get_row p b.tasks) [
  | none ↦ false
  | some parent ↦ is_in_progress parent.status
]

check_parent-returns :
    (p : Option ℕ) (b : Board) → check_parent p b ≡ returns tt → has_running_parent p b ≡ true
unfolding check_parent
check_parent-returns none b e = refl
check_parent-returns (some p) b e = elim (Option-cases (get_row p b.tasks)) [
  | inl gone ↦ let bad = rw (check_parent, gone) at e in cc
  | inr (t, r) ↦
      rw (has_running_parent, r)
        (throw_unless-returns (is_in_progress t.status) parent_not_in_progress
          (rw (check_parent, r) at e))
]

returns-check_parent :
    (p : Option ℕ) (b : Board) → has_running_parent p b ≡ true → check_parent p b ≡ returns tt
unfolding check_parent
returns-check_parent none b e = refl
returns-check_parent (some p) b e = elim (Option-cases (get_row p b.tasks)) [
  | inl gone ↦ let bad = rw (has_running_parent, gone) at e in cc
  | inr (t, r) ↦
      let running : is_in_progress t.status ≡ true = rw (has_running_parent, r) at e in
      rw (check_parent, r, running) refl
]

abbrev with_row : Task → Board → Board
with_row t b = record { tasks = t ∷ b.tasks; next_id = b.next_id + 1 }

insert_supervised :
    (t : Task) (b : Board) → is_unsupervised t ≡ false → insert_row t b ≡ returns (t, with_row t b)
unfolding insert_row
insert_supervised t b h = rw h refl

&&-false : (x : Bool) → (x && false) ≡ false
&&-false true = refl
&&-false false = refl

insert-delegated_row :
    (now : ℕ) (input : DelegateTaskInput) (b : Board)
    → let row = delegated_row b.next_id now input in
      insert_row row b ≡ returns (row, with_row row b)
insert-delegated_row now input b =
    insert_supervised (delegated_row b.next_id now input) b
      (unfold delegated_row is_unsupervised in &&-false (not (str_eq input.from input.to)))

-- delegateTask succeeds exactly if the brief, where there is one, is not too long and the parent,
-- where one is named, is a row in progress; it then adds the one row that it returns, which is made
-- from the input under the next id, and leaves the other rows as they are.
pub delegate_task_iff :
    (now : ℕ) (input : DelegateTaskInput) (b : Board) (r : Task × Board)
    → (delegate_task now input b ≡ returns r) ↔ (
        (brief_fits input.delegation_brief ≡ true)
        × (has_running_parent input.parent_task_id b ≡ true)
        × (r ≡ (
          delegated_row b.next_id now input,
          record { tasks = delegated_row b.next_id now input ∷ b.tasks; next_id = b.next_id + 1 },
        )))
unfolding delegate_task
delegate_task_iff now input b r = (
  λ e.
      let (u, fits, e1) =
        >>=-returns (throw_unless (brief_fits input.delegation_brief) brief_too_large)
          (λ u. check_parent input.parent_task_id b >>= λ v.
            insert_row (delegated_row b.next_id now input) b)
          r e in
      let (v, running, e2) =
        >>=-returns (check_parent input.parent_task_id b)
          (λ v. insert_row (delegated_row b.next_id now input) b) r e1 in
      (
        throw_unless-returns (brief_fits input.delegation_brief) brief_too_large fits,
        check_parent-returns input.parent_task_id b running,
        returns-injective r _ (sym e2 ∙ insert-delegated_row now input b),
      ),
  λ (fits, running, same).
      rw (fits, returns-check_parent input.parent_task_id b running, same)
        (insert-delegated_row now input b),
)

-- The parents that take a sub-agent: for an addendum one that is finished, for preparation one that
-- is not past its work, for a plain sub-agent one in progress.
abbrev pub takes_subagent : Bool → Bool → Status → Bool
takes_subagent true true s = false
takes_subagent true false s = not (is_open s)
takes_subagent false true s = prep_ok s
takes_subagent false false s = is_in_progress s

checked : Bool → Bool → Status → Call (Unit {0})
checked is_addendum is_prep s =
    if is_addendum
    then throw_unless (not (is_open s)) addendum_parent_open
    else if is_prep
    then throw_unless (prep_ok s) prep_parent_closed
    else throw_unless (is_in_progress s) parent_not_in_progress

checked-returns :
    (a p : Bool) (s : Status)
    → not (p && a) ≡ true
    → checked a p s ≡ returns tt
    → takes_subagent a p s ≡ true
unfolding checked
checked-returns true true s n e = cc
checked-returns true false s n e = throw_unless-returns (not (is_open s)) addendum_parent_open e
checked-returns false true s n e = throw_unless-returns (prep_ok s) prep_parent_closed e
checked-returns false false s n e = throw_unless-returns (is_in_progress s) parent_not_in_progress e

returns-checked :
    (a p : Bool) (s : Status)
    → takes_subagent a p s ≡ true
    → (not (p && a) ≡ true) × (checked a p s ≡ returns tt)
unfolding checked
returns-checked true true s e = cc
returns-checked true false s e = (refl, rw e refl)
returns-checked false true s e = (refl, rw e refl)
returns-checked false false s e = (refl, rw e refl)

find_parent-returns : (o : Option Task) (t : Task) → find_parent o ≡ returns t → o ≡ some t
unfolding find_parent
find_parent-returns none t e = cc
find_parent-returns (some u) t e = ap some (returns-injective u t e)

insert-subagent_row :
    (now : ℕ) (input : SubagentInput) (b : Board)
    → let row = subagent_row b.next_id now input in insert_row row b ≡ returns (row, with_row row b)
insert-subagent_row now input b = insert_supervised (subagent_row b.next_id now input) b (
    unfold subagent_row is_unsupervised in
    &&-false (not (str_eq input.supervisor_agent input.supervisor_agent)))

-- createSubagentTask succeeds exactly if the parent is on the board and its status admits the kind
-- that is asked for; no row is both preparation and an addendum. It then adds the one row that it
-- returns.
pub create_subagent_task_iff :
    (now : ℕ) (input : SubagentInput) (b : Board) (r : Task × Board)
    → (create_subagent_task now input b ≡ returns r) ↔ (
        (parent : Task) × (get_row input.parent_task_id b.tasks ≡ some parent)
        × (takes_subagent input.is_addendum input.is_prep parent.status ≡ true)
        × (r ≡ (
          subagent_row b.next_id now input,
          record { tasks = subagent_row b.next_id now input ∷ b.tasks; next_id = b.next_id + 1 },
        )))
unfolding create_subagent_task
create_subagent_task_iff now input b r =
    let row = subagent_row b.next_id now input in
    let gate : Status → Call (Unit {0}) = λ s. check_subagent_parent input s in
    let last : Task → Unit {0} → Call (Task × Board) = λ t u. insert_row row b in
    let middle : Task → Call (Task × Board) = λ t. gate t.status >>= last t in
    (
      λ e.
          let (u, both, e1) =
            >>=-returns (throw_unless (not (input.is_prep && input.is_addendum)) prep_and_addendum)
              (λ u. find_parent (get_row input.parent_task_id b.tasks) >>= middle) r e in
          let (t, found, e2) =
            >>=-returns (find_parent (get_row input.parent_task_id b.tasks)) middle r e1 in
          let (v, fits, e3) = >>=-returns (gate t.status) (last t) r e2 in
          (
            t,
            find_parent-returns (get_row input.parent_task_id b.tasks) t found,
            checked-returns input.is_addendum input.is_prep t.status
                (throw_unless-returns (not (input.is_prep && input.is_addendum)) prep_and_addendum
                  both)
                (unfold checked check_subagent_parent in fits),
            returns-injective r _ (sym e3 ∙ insert-subagent_row now input b),
          ),
      λ (t, found, takes, same).
          let (both, fits) = returns-checked input.is_addendum input.is_prep t.status takes in
          let fits' : check_subagent_parent input t.status ≡ returns tt =
            unfold checked check_subagent_parent in fits in
          rw (both, found, find_parent, fits', same) (insert-subagent_row now input b),
    )
