-- ===== src/Board/Lifecycle/Statements.antt =====
-- How the rows of the board follow those before a statement of TaskDB (Transitions, Finalizer,
-- Heartbeat).
use threadwork.Prelude.{◌⊎◌, ◌∙◌}
use threadwork.Board.Closing.{next_id-close_children}
use threadwork.Board.Lifecycle.{
  ◌⟶◌, claim, go, complete, submit, cancel, hold, release, Moves, stay, next, Follows, Follows-refl,
  Follows-trans, key, update_returning-Follows,
}
use threadwork.Prelude.{
  ℕ, ◌≡◌, refl, Bool, true, false, Option, none, some, List, [], ◌∷◌, String, arith, inl, inr,
  Bool-cases, Option-cases, or_else,
}
use threadwork.Prelude.Table.{Evolves, Evolves-refl, Evolves-update, Evolves-trans}
use threadwork.Board.Task.{
  Task, Board, Status, pending, in_progress, completed, draft, review, parked, is_parkable, get_row,
  is_in_progress, is_pending, awaits_go, is_parked,
}
use threadwork.Board.Create.{is_unsupervised}
use threadwork.Board.Transitions.{
  Outcome, claim_task, claim_task_with_session, complete_task, force_complete_task, assign_task,
  transition_to_in_progress, park_task, unpark_task, close_subagent_task, cancel_subagent_task,
}
use threadwork.Board.Finalizer.{
  settle, finalize, open_children, finish, close_children, close_child, terminal_status,
}
use threadwork.Board.Heartbeat.{HeartbeatInput, update_heartbeat, beat, beat_blocked, beat_clear}
use threadwork.Sessions.{Sessions}

-- What the guards of the statements let through.
claimable : (s : Status) → is_pending s ≡ true → Moves s in_progress
claimable pending h = next stay claim
claimable in_progress h = cc
claimable _ h = cc

startable : (s : Status) → awaits_go s ≡ true → Moves s in_progress
startable pending h = next stay claim
startable draft h = next stay go
startable _ h = cc

finishable : (s : Status) {u : Status} → in_progress ⟶ u → is_in_progress s ≡ true → Moves s u
finishable in_progress e h = next stay e
finishable _ e h = cc

releasable : (s u : Status) → is_parked s ≡ true → is_parkable u ≡ true → Moves s u
releasable parked u h k = next stay (release k)
releasable _ u h k = cc

pub claim_task-Follows :
    (now id : ℕ) (who : String) (b : Board)
    → Evolves key Follows b.tasks (claim_task now id who b).1.tasks
unfolding claim_task is_unsupervised
claim_task-Follows now id who b =
    update_returning-Follows _ _ b (λ t. refl)
      (λ t h. record { moves = λ s. claimable t.status (ground arith); sound = λ s. ground arith })

pub complete_task-Follows :
    (now id : ℕ) (result who : String) (b : Board)
    → Evolves key Follows b.tasks (complete_task now id result who b).1.tasks
unfolding complete_task is_unsupervised
complete_task-Follows now id result who b =
    update_returning-Follows _ _ b (λ t. refl)
      (λ t h. record {
        moves = λ s. finishable t.status complete (ground arith);
        sound = λ s. ground arith;
      })

pub force_complete_task-Follows :
    (now id : ℕ) (result : String) (b : Board)
    → Evolves key Follows b.tasks (force_complete_task now id result b).1.tasks
unfolding force_complete_task is_unsupervised
force_complete_task-Follows now id result b =
    update_returning-Follows _ _ b (λ t. refl)
      (λ t h. record {
        moves = λ s. finishable t.status complete (ground arith);
        sound = λ s. ground arith;
      })

pub claim_task_with_session-Follows :
    (now id : ℕ) (who : String) (session : Option String) (b : Board)
    → Evolves key Follows b.tasks (claim_task_with_session now id who session b).1.tasks
unfolding claim_task_with_session is_unsupervised
claim_task_with_session-Follows now id who session b =
    update_returning-Follows _ _ b (λ t. refl)
      (λ t h. record { moves = λ s. claimable t.status (ground arith); sound = λ s. ground arith })

pub assign_task-Follows :
    (id : ℕ) (who supervisor : String) (b : Board)
    → Evolves key Follows b.tasks (assign_task id who supervisor b).1.tasks
unfolding assign_task is_unsupervised
assign_task-Follows id who supervisor b =
    update_returning-Follows _ _ b (λ t. refl)
      (λ t h. record { moves = λ s. stay; sound = λ s. ground arith })

pub transition_to_in_progress-Follows :
    (now id : ℕ) (session : Option String) (b : Board)
    → Evolves key Follows b.tasks (transition_to_in_progress now id session b).1.tasks
unfolding transition_to_in_progress is_unsupervised
transition_to_in_progress-Follows now id session b =
    update_returning-Follows _ _ b (λ t. refl)
      (λ t h. record { moves = λ s. startable t.status (ground arith); sound = λ s. ground arith })

pub park_task-Follows : (id : ℕ) (b : Board) → Evolves key Follows b.tasks (park_task id b).1.tasks
unfolding park_task is_unsupervised
park_task-Follows id b =
    update_returning-Follows _ _ b (λ t. refl)
      (λ t h. record { moves = λ s. next stay (hold (ground arith)); sound = λ s. ground arith })

pub unpark_task-Follows :
    (now id : ℕ) (b : Board) → Evolves key Follows b.tasks (unpark_task now id b).1.tasks
unfolding unpark_task is_unsupervised
unpark_task-Follows now id b =
    update_returning-Follows _ _ b (λ t. refl)
      (λ t h. record {
        moves = λ s.
            releasable t.status (or_else t.prior_status pending) (ground arith)
              (ground (arith, s.parked_remembers));
        sound = λ s. ground (arith, s.parked_remembers);
      })

pub close_subagent_task-Follows :
    (now id : ℕ) (result : String) (b : Board)
    → Evolves key Follows b.tasks (close_subagent_task now id result b).1.tasks
unfolding close_subagent_task is_unsupervised
close_subagent_task-Follows now id result b =
    update_returning-Follows _ _ b (λ t. refl)
      (λ t h. record {
        moves = λ s. finishable t.status complete (ground arith);
        sound = λ s. ground arith;
      })

pub cancel_subagent_task-Follows :
    (now id : ℕ) (result : String) (b : Board)
    → Evolves key Follows b.tasks (cancel_subagent_task now id result b).1.tasks
unfolding cancel_subagent_task is_unsupervised
cancel_subagent_task-Follows now id result b =
    update_returning-Follows _ _ b (λ t. refl)
      (λ t h. record {
        moves = λ s. finishable t.status cancel (ground arith);
        sound = λ s. ground arith;
      })

close_child-Follows :
    (now child : ℕ) (b : Board) → Evolves key Follows b.tasks (close_child now child b).tasks
unfolding close_child is_unsupervised
close_child-Follows now child b =
    Evolves-update key Follows _ _ Follows-refl (λ t. refl)
      (λ t h. record {
        moves = λ s. finishable t.status complete (ground arith);
        sound = λ s. ground arith;
      })
      b.tasks

close_children-Follows :
    (now : ℕ) (cs : List Task) (b : Board)
    → Evolves key Follows b.tasks (close_children now cs b).2.tasks
unfolding close_children
close_children-Follows now [] b = Evolves-refl key Follows Follows-refl b.tasks
close_children-Follows now (c ∷ cs) b = elim (Bool-cases c.is_synthetic) [
  | inl e ↦ rw e (
      Evolves-trans key Follows Follows-trans _ _ _ (close_child-Follows now c.id b)
        (close_children-Follows now cs (close_child now c.id b)))
  | inr e ↦ rw e (close_children-Follows now cs b)
]

terminal_status-cases :
    (o : Option Task) → (terminal_status o ≡ completed) ⊎ (terminal_status o ≡ review)
unfolding terminal_status
terminal_status-cases none = inl refl
terminal_status-cases (some t) = ground arith

terminal_status-move : (o : Option Task) → in_progress ⟶ terminal_status o
terminal_status-move o = elim (terminal_status-cases o) [
  | inl e ↦ rw e complete
  | inr e ↦ rw e submit
]

finish-Follows :
    (now id : ℕ) (result : String) (owned : Task → Bool) (b : Board)
    → Evolves key Follows b.tasks (finish now id result owned b).1.tasks
unfolding finish is_unsupervised
finish-Follows now id result owned b =
    update_returning-Follows _ _ b (λ t. refl)
      (λ t h. record {
        moves = λ s. finishable t.status (terminal_status-move (get_row id b.tasks)) (ground arith);
        sound = λ s. ground arith;
      })

settle-Follows :
    (closed left : List ℕ) (b : Board) (f : Board → Outcome)
    → Evolves key Follows b.tasks (f b).1.tasks
    → Evolves key Follows b.tasks (settle closed left b f).1.tasks
unfolding settle
settle-Follows closed (c ∷ cs) b f h = Evolves-refl key Follows Follows-refl b.tasks
settle-Follows closed [] b f h = h

pub finalize-Follows :
    (now id : ℕ) (result : String) (owned : Task → Bool) (b : Board)
    → Evolves key Follows b.tasks (finalize now id result owned b).1.tasks
unfolding finalize
finalize-Follows now id result owned b =
    let cs = open_children id b in
    let (closed, left, b') = close_children now cs b in
    Evolves-trans key Follows Follows-trans b.tasks b'.tasks _ (close_children-Follows now cs b) (
      settle-Follows closed left b' (finish now id result owned)
        (finish-Follows now id result owned b'))

beat_blocked-Follows :
    (now : ℕ) (input : HeartbeatInput) (t : Task) → Follows t (beat_blocked now input t)
unfolding beat_blocked is_unsupervised
beat_blocked-Follows now input t = record { moves = λ s. stay; sound = λ s. ground arith }

beat_clear-Follows :
    (now : ℕ) (input : HeartbeatInput) (n : ℕ) (t : Task) → Follows t (beat_clear now input n t)
unfolding beat_clear is_unsupervised
beat_clear-Follows now input n t = record { moves = λ s. stay; sound = λ s. ground arith }

beat-Follows :
    (now : ℕ) (input : HeartbeatInput) (t : Task) (b : Board) (s : Sessions)
    → Evolves key Follows b.tasks (beat now input t b s).0.1.tasks
unfolding beat
beat-Follows now input t b s = elim (Bool-cases (or_else input.is_blocked false)) [
  | inl e ↦
      rw e (update_returning-Follows _ _ b (λ r. refl) (λ r h. beat_blocked-Follows now input r))
  | inr e ↦
      rw e (update_returning-Follows _ _ b (λ r. refl) (λ r h. beat_clear-Follows now input _ r))
]

pub update_heartbeat-Follows :
    (now : ℕ) (input : HeartbeatInput) (b : Board) (s : Sessions)
    → Evolves key Follows b.tasks (update_heartbeat now input b s).0.1.tasks
unfolding update_heartbeat
update_heartbeat-Follows now input b s = elim (Option-cases (get_row input.task_id b.tasks)) [
  | inl e ↦ rw (e, update_heartbeat) (Evolves-refl key Follows Follows-refl b.tasks)
  | inr (t, e) ↦ rw (e, update_heartbeat) (beat-Follows now input t b s)
]

next_id-settle :
    (closed left : List ℕ) (b : Board) (f : Board → Outcome)
    → (f b).1.next_id ≡ b.next_id
    → (settle closed left b f).1.next_id ≡ b.next_id
unfolding settle
next_id-settle closed (c ∷ cs) b f h = refl
next_id-settle closed [] b f h = h

pub next_id-finalize :
    (now id : ℕ) (result : String) (owned : Task → Bool) (b : Board)
    → (finalize now id result owned b).1.next_id ≡ b.next_id
unfolding finalize
next_id-finalize now id result owned b =
    let cs = open_children id b in
    let (closed, left, b') = close_children now cs b in
    next_id-settle closed left b' (finish now id result owned) refl
    ∙ next_id-close_children now cs b

pub next_id-update_heartbeat :
    (now : ℕ) (input : HeartbeatInput) (b : Board) (s : Sessions)
    → (update_heartbeat now input b s).0.1.next_id ≡ b.next_id
unfolding update_heartbeat
next_id-update_heartbeat now input b s = elim (Option-cases (get_row input.task_id b.tasks)) [
  | inl e ↦ rw (e, update_heartbeat) refl
  | inr (t, e) ↦ elim (Bool-cases (or_else input.is_blocked false)) [
    | inl h ↦ rw (e, update_heartbeat, h) refl
    | inr h ↦ rw (e, update_heartbeat, h) refl
  ]
]
