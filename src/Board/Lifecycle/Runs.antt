-- ===== src/Board/Lifecycle/Runs.antt =====
-- Every call of TaskDB that writes the table `tasks`, and what holds after any sequence of them. The
-- watchdog's and the server's own statements on the table are not among them.
use threadwork.Prelude.{
  ℕ, ◌≡◌, refl, false, not, ◌&&◌, Option, none, some, List, [], ◌∷◌, String, arith, ◌+◌, inl, inr,
  Bool-cases, Bool, true, All, keep,
}
use threadwork.Prelude.Table.{IsKeyed, Evolves, Evolves-refl, Evolves-IsKeyed, keep-IsKeyed}
use threadwork.Board.Hygiene.{is_archivable, is_old, archive_tasks}
use threadwork.Board.Task.{Task, Board, get_row}
use threadwork.Board.Create.{
  Call, returns, throws, DelegateTaskInput, create_task, created_row, delegate_task, delegated_row,
  brief_fits, insert_row, is_unsupervised, ◌>>=◌, ◌>>◌, throw_unless, check_parent, brief_too_large,
  prep_and_addendum,
}
use threadwork.Board.Transitions.{
  claim_task, claim_task_with_session, complete_task, force_complete_task, assign_task,
  transition_to_in_progress, park_task, unpark_task, close_subagent_task, cancel_subagent_task,
}
use threadwork.Board.Finalizer.{
  complete_task_with_finalizer_check, force_complete_task_with_finalizer_check,
}
use threadwork.Board.Heartbeat.{HeartbeatInput, update_heartbeat}
use threadwork.Board.Subagents.{
  SubagentInput, create_subagent_task, check_subagent_parent, find_parent, subagent_row,
}
use threadwork.Board.Lifecycle.{IsSound, Follows, Follows-refl, key}
use threadwork.Board.Lifecycle.Statements
use threadwork.Sessions.{Sessions}

pub data Op : Type 0 where
  create : String → Option String → String → String → Op
  delegate : DelegateTaskInput → Op
  subagent : SubagentInput → Op
  claim : ℕ → String → Op
  claim_with_session : ℕ → String → Option String → Op
  complete : ℕ → String → String → Op
  force_complete : ℕ → String → Op
  assign : ℕ → String → String → Op
  go : ℕ → Option String → Op
  park unpark : ℕ → Op
  close_subagent cancel_subagent : ℕ → String → Op
  finalize_owned : ℕ → String → String → Op
  finalize_forced : ℕ → String → Op
  beat : HeartbeatInput → Op
  run_hygiene : Bool → Op

-- The board after an insertion, or the old one where it throws.
abbrev inserted : Board → Call (Task × Board) → Board
inserted b (returns (t, b')) = b'
inserted b (throws e) = b

-- The board after an operation at a time. `s` is agent_sessions, which a heartbeat reads nothing of.
-- The board does not depend on what tasks_archive has.
unfoldable pub exec : ℕ → Op → Board → Sessions → Board
exec now (create from to text priority) b s = inserted b (create_task now from to text priority b)
exec now (delegate input) b s = inserted b (delegate_task now input b)
exec now (subagent input) b s = inserted b (create_subagent_task now input b)
exec now (claim id who) b s = (claim_task now id who b).1
exec now (claim_with_session id who session) b s = (claim_task_with_session now id who session b).1
exec now (complete id result who) b s = (complete_task now id result who b).1
exec now (force_complete id result) b s = (force_complete_task now id result b).1
exec now (assign id who supervisor) b s = (assign_task id who supervisor b).1
exec now (go id session) b s = (transition_to_in_progress now id session b).1
exec now (park id) b s = (park_task id b).1
exec now (unpark id) b s = (unpark_task now id b).1
exec now (close_subagent id result) b s = (close_subagent_task now id result b).1
exec now (cancel_subagent id result) b s = (cancel_subagent_task now id result b).1
exec now (finalize_owned id result who) b s =
    (complete_task_with_finalizer_check now id result who b).1
exec now (finalize_forced id result) b s =
    (force_complete_task_with_finalizer_check now id result b).1
exec now (beat input) b s = (update_heartbeat now input b s).0.1
exec now (run_hygiene dry_run) b s = (archive_tasks now dry_run [] b).2

-- One board comes after another: the old rows follow theirs, or one row was added in front, sound and
-- with a fresh id, or rows that had ended were deleted.
pub data Grows (b : Board) : Board → Type 0 where
  same : {b' : Board} → b'.next_id ≡ b.next_id → Evolves key Follows b.tasks b'.tasks → Grows b b'
  more :
      (t : Task)
      → t.id ≡ b.next_id
      → IsSound t
      → Grows b (record { tasks = t ∷ b.tasks; next_id = b.next_id + 1 })
  fewer :
      (q : Task → Bool)
      → ((t : Task) → q t ≡ false → is_archivable t.status ≡ true)
      → Grows b (record b { tasks = keep q b.tasks })

insert_row-Grows :
    (t : Task) (b : Board)
    → t.id ≡ b.next_id
    → (is_unsupervised t ≡ false → IsSound t)
    → Grows b (inserted b (insert_row t b))
unfolding insert_row
insert_row-Grows t b e h = elim (Bool-cases (is_unsupervised t)) [
  | inl u ↦ rw (u, insert_row) (same refl (Evolves-refl key Follows Follows-refl b.tasks))
  | inr u ↦ rw (u, insert_row) (more t e (h u))
]

same-Grows : (b : Board) → Grows b b
same-Grows b = same refl (Evolves-refl key Follows Follows-refl b.tasks)

created_row-IsSound :
    (id now : ℕ) (from : String) (to : Option String) (text priority : String)
    → is_unsupervised (created_row id now from to text priority) ≡ false
    → IsSound (created_row id now from to text priority)
unfolding created_row
created_row-IsSound id now from to text priority u = record {
  supervised = u;
  completed_stamped = λ e. cc;
  cancelled_stamped = λ e. cc;
  parked_remembers = λ e. cc;
}

delegated_row-IsSound :
    (id now : ℕ) (input : DelegateTaskInput)
    → is_unsupervised (delegated_row id now input) ≡ false
    → IsSound (delegated_row id now input)
unfolding delegated_row
delegated_row-IsSound id now input u = record {
  supervised = u;
  completed_stamped = λ e. cc;
  cancelled_stamped = λ e. cc;
  parked_remembers = λ e. cc;
}

subagent_row-IsSound :
    (id now : ℕ) (input : SubagentInput)
    → is_unsupervised (subagent_row id now input) ≡ false
    → IsSound (subagent_row id now input)
unfolding subagent_row
subagent_row-IsSound id now input u = record {
  supervised = u;
  completed_stamped = λ e. ground arith;
  cancelled_stamped = λ e. ground arith;
  parked_remembers = λ e. ground arith;
}

-- A step of a chain that throws leaves the board as it was.
guarded-Grows :
    (b : Board) (m : Call (Unit {0})) (k : Call (Task × Board))
    → Grows b (inserted b k)
    → Grows b (inserted b (m >> k))
guarded-Grows b (returns u) k h = h
guarded-Grows b (throws e) k h = same-Grows b

delegate_task-Grows :
    (now : ℕ) (input : DelegateTaskInput) (b : Board)
    → Grows b (inserted b (delegate_task now input b))
unfolding delegate_task
delegate_task-Grows now input b =
    let row = delegated_row b.next_id now input in
    let insertion = insert_row row b in
    let checked = check_parent input.parent_task_id b in
    guarded-Grows b (throw_unless (brief_fits input.delegation_brief) brief_too_large)
      (checked >> insertion)
      (guarded-Grows b checked insertion
        (insert_row-Grows row b refl (delegated_row-IsSound b.next_id now input)))

with_parent-Grows :
    (b : Board) (o : Option Task) (k : Task → Call (Task × Board))
    → ((t : Task) → Grows b (inserted b (k t)))
    → Grows b (inserted b (find_parent o >>= k))
unfolding find_parent
with_parent-Grows b none k h = same-Grows b
with_parent-Grows b (some t) k h = h t

create_subagent_task-Grows :
    (now : ℕ) (input : SubagentInput) (b : Board)
    → Grows b (inserted b (create_subagent_task now input b))
unfolding create_subagent_task
create_subagent_task-Grows now input b =
    let row = subagent_row b.next_id now input in
    let insertion = insert_row row b in
    let parent = get_row input.parent_task_id b.tasks in
    let rest = λ (t : Task). check_subagent_parent input t.status >> insertion in
    guarded-Grows b (throw_unless (not (input.is_prep && input.is_addendum)) prep_and_addendum)
      (find_parent parent >>= rest)
      (with_parent-Grows b parent rest λ t.
        guarded-Grows b (check_subagent_parent input t.status) insertion
          (insert_row-Grows row b refl (subagent_row-IsSound b.next_id now input)))

kept_old : (now : ℕ) (t : Task) → not (is_old now t) ≡ false → is_archivable t.status ≡ true
kept_old now t e = elim (Bool-cases (is_archivable t.status)) [
  | inl h ↦ h
  | inr h ↦ let no : true ≡ false = rw h at e in cc
]

archive_tasks-Grows :
    (now : ℕ) (dry_run : Bool) (b : Board) → Grows b (archive_tasks now dry_run [] b).2
unfolding archive_tasks
archive_tasks-Grows now true b = same-Grows b
archive_tasks-Grows now false b = fewer (λ t. not (is_old now t)) (kept_old now)

pub exec-Grows : (now : ℕ) (op : Op) (b : Board) (s : Sessions) → Grows b (exec now op b s)
unfolding exec create_task claim_task claim_task_with_session complete_task force_complete_task
    assign_task transition_to_in_progress park_task unpark_task close_subagent_task
    cancel_subagent_task complete_task_with_finalizer_check force_complete_task_with_finalizer_check
exec-Grows now (create from to text priority) b s =
    insert_row-Grows (created_row b.next_id now from to text priority) b refl
      (created_row-IsSound b.next_id now from to text priority)
exec-Grows now (delegate input) b s = delegate_task-Grows now input b
exec-Grows now (subagent input) b s = create_subagent_task-Grows now input b
exec-Grows now (claim id who) b s = same refl (Statements.claim_task-Follows now id who b)
exec-Grows now (claim_with_session id who session) b s =
    same refl (Statements.claim_task_with_session-Follows now id who session b)
exec-Grows now (complete id result who) b s =
    same refl (Statements.complete_task-Follows now id result who b)
exec-Grows now (force_complete id result) b s =
    same refl (Statements.force_complete_task-Follows now id result b)
exec-Grows now (assign id who supervisor) b s =
    same refl (Statements.assign_task-Follows id who supervisor b)
exec-Grows now (go id session) b s =
    same refl (Statements.transition_to_in_progress-Follows now id session b)
exec-Grows now (park id) b s = same refl (Statements.park_task-Follows id b)
exec-Grows now (unpark id) b s = same refl (Statements.unpark_task-Follows now id b)
exec-Grows now (close_subagent id result) b s =
    same refl (Statements.close_subagent_task-Follows now id result b)
exec-Grows now (cancel_subagent id result) b s =
    same refl (Statements.cancel_subagent_task-Follows now id result b)
exec-Grows now (finalize_owned id result who) b s =
    same (Statements.next_id-finalize now id result _ b)
      (Statements.finalize-Follows now id result _ b)
exec-Grows now (finalize_forced id result) b s =
    same (Statements.next_id-finalize now id result _ b)
      (Statements.finalize-Follows now id result _ b)
exec-Grows now (beat input) b s =
    same (Statements.next_id-update_heartbeat now input b s)
      (Statements.update_heartbeat-Follows now input b s)
exec-Grows now (run_hygiene dry_run) b s = archive_tasks-Grows now dry_run b

-- Operations one after another, each at its own time, with the sessions of that time.
pub record Event : Type 0 where
  pub at : ℕ
  pub op : Op
  pub sessions : Sessions

unfoldable pub run : List Event → Board → Board
run [] b = b
run (e ∷ es) b = run es (exec e.at e.op b e.sessions)

-- The invariant of the table: keys in order below the next one, and sound rows.
pub record IsWellFormed (b : Board) : Type 0 where
  pub keyed : IsKeyed key b.next_id b.tasks
  pub sound : All IsSound b.tasks

All-keep : (P : Task → Type 0) (q : Task → Bool) (ts : List Task) → All P ts → All P (keep q ts)
All-keep P q [] a = tt
All-keep P q (t ∷ ts) (h, a) = elim (Bool-cases (q t)) [
  | inl e ↦ rw e (h, All-keep P q ts a)
  | inr e ↦ rw e (All-keep P q ts a)
]

All-Evolves : (ts us : List Task) → Evolves key Follows ts us → All IsSound ts → All IsSound us
All-Evolves [] [] h a = tt
All-Evolves [] (u ∷ us) h a = absurd h
All-Evolves (t ∷ ts) [] h a = absurd h
All-Evolves (t ∷ ts) (u ∷ us) (e, f, h) (s, a) = (f.sound s, All-Evolves ts us h a)

pub Grows-IsWellFormed : {b b' : Board} → Grows b b' → IsWellFormed b → IsWellFormed b'
Grows-IsWellFormed {b} {b' = b'} (same e h) w = record {
  keyed = rw e (Evolves-IsKeyed key Follows b.next_id b.tasks b'.tasks h w.keyed);
  sound = All-Evolves b.tasks b'.tasks h w.sound;
}
Grows-IsWellFormed {b} (more t e s) w = record {
  keyed = (omega arith, rw e w.keyed);
  sound = (s, w.sound);
}
Grows-IsWellFormed {b} (fewer q ended) w = record {
  keyed = keep-IsKeyed key b.next_id q b.tasks w.keyed;
  sound = All-keep IsSound q b.tasks w.sound;
}

-- From a well-formed board every sequence of calls of TaskDB, hygiene included and whatever they return
-- or throw, leads to a well-formed board: ids stay unique and below the next one, a row handed to
-- another agent has a supervisor, a completed or cancelled row has the time of its end, and a parked
-- row remembers a status that can be parked.
pub run-IsWellFormed : (es : List Event) (b : Board) → IsWellFormed b → IsWellFormed (run es b)
unfolding run
run-IsWellFormed [] b w = w
run-IsWellFormed (e ∷ es) b w =
    run-IsWellFormed es (exec e.at e.op b e.sessions)
      (Grows-IsWellFormed (exec-Grows e.at e.op b e.sessions) w)
