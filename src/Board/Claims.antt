-- ===== src/Board/Claims.antt =====
-- Claiming a task (claimTaskWithSession, claimTask and transitionToInProgress of db.ts).
use mathlib.Core.Path.{◌∙◌}
use threadwork.Prelude.{
  Bool-cases, ◌⊎◌, inl, inr, ℕ, ◌+◌, ◌≡◌, refl, String, Bool, true, false, ◌&&◌, Option, none, some,
  ◌==◌, text_is, or_else, is_some, arith,
}
use threadwork.Prelude.Table.{Names, key-row}
use threadwork.Board.Task.{Task, Board, in_progress, is_pending, awaits_go, get_row}
use threadwork.Board.Transitions.{
  claim_task, claim_task_with_session, transition_to_in_progress, arm,
}
use threadwork.Board.Statement.{
  key, IsKeyedBoard, update_hit, update_miss, update_found, update-IsKeyedBoard,
}

-- The WHERE clause of a claim, and that of a GO.
abbrev claimable_by : ℕ → String → Task → Bool
claimable_by id who t = t.id == id && text_is t.to_agent who && is_pending t.status

abbrev startable : ℕ → Task → Bool
startable id t = t.id == id && awaits_go t.status && is_some t.to_agent

claimable_by-Names : (id : ℕ) (who : String) → Names key id (claimable_by id who)
claimable_by-Names id who t h = ground arith

startable-Names : (id : ℕ) → Names key id (startable id)
startable-Names id t h = ground arith

claimable_by-eq :
    (id : ℕ) (who : String) (t : Task)
    → t.id ≡ id
    → claimable_by id who t ≡ (text_is t.to_agent who && is_pending t.status)
claimable_by-eq id who t e = ground arith

-- On a keyed board, for a row that is there: either the row is pending and assigned to the claimer,
-- and the claim returns the row that it stores, in progress, for the same agent, bound to the session,
-- due for a check 120 seconds later, and one attempt further; or it is not, and the claim returns
-- nothing and the board is unchanged.
pub claim_exact :
    (now id : ℕ) (who : String) (session : Option String) (b : Board) (t : Task)
    → IsKeyedBoard b
    → get_row id b.tasks ≡ some t
    → let after = claim_task_with_session now id who session b in
      let may = text_is t.to_agent who && is_pending t.status in
      ((may ≡ true)
        × (u : Task) × (after.0 ≡ some u)
        × (get_row id after.1.tasks ≡ some u)
        × (u.status ≡ in_progress)
        × (u.to_agent ≡ t.to_agent)
        × (u.worker_session_id ≡ session)
        × (u.next_check_at ≡ some (now + 120))
        × (u.attempt_id ≡ some (or_else t.attempt_id 0 + 1)))
      ⊎ ((may ≡ false) × (after ≡ (none, b)))
unfolding claim_task_with_session
claim_exact now id who session b t k r =
    let named = claimable_by-Names id who in
    let same = claimable_by-eq id who t (key-row key id b.tasks r) in
    elim (Bool-cases (text_is t.to_agent who && is_pending t.status)) [
      | inl h ↦
          let (returned, stored) =
            update_hit id (claimable_by id who) (arm now session) b named t k (λ x. refl) r
              (same ∙ h) in
          inl (h, arm now session t, returned, stored, refl, refl, refl, refl, refl)
      | inr h ↦
          inr (h, update_miss id (claimable_by id who) (arm now session) b named t k r (same ∙ h))
    ]

-- A row in progress is neither claimed nor started.
busy_row :
    (later id : ℕ) (other : String) (session : Option String) (b : Board) (u : Task)
    → IsKeyedBoard b
    → get_row id b.tasks ≡ some u
    → u.status ≡ in_progress
    → (claim_task_with_session later id other session b ≡ (none, b))
      × (claim_task later id other b ≡ (none, b))
      × (transition_to_in_progress later id session b ≡ (none, b))
unfolding claim_task_with_session claim_task transition_to_in_progress
busy_row later id other session b u k r e =
    let named = claimable_by-Names id other in
    (
      update_miss id (claimable_by id other) _ b named u k r (ground arith),
      update_miss id (claimable_by id other) _ b named u k r (ground arith),
      update_miss id (startable id) _ b (startable-Names id) u k r (ground arith),
    )

-- A task is claimed at most once: on a keyed board, after a claim that succeeded, every claim of the
-- same task by any agent, with or without a session, and every GO on it return nothing and leave
-- the board as the claim left it.
pub claim_exclusive :
    (now id : ℕ) (who : String) (session : Option String) (b : Board) (u : Task)
    → IsKeyedBoard b
    → (claim_task_with_session now id who session b).0 ≡ some u
    → (later : ℕ) (other : String) (session' : Option String)
    → let after = (claim_task_with_session now id who session b).1 in
      (claim_task_with_session later id other session' after ≡ (none, after))
      × (claim_task later id other after ≡ (none, after))
      × (transition_to_in_progress later id session' after ≡ (none, after))
unfolding claim_task_with_session
claim_exclusive now id who session b u k e later other session' =
    let p = claimable_by id who in
    let named = claimable_by-Names id who in
    let (t, r, hit) = update_found id p (arm now session) b named u k e in
    let (returned, stored) = update_hit id p (arm now session) b named t k (λ x. refl) r hit in
    busy_row later id other session' _ (arm now session t)
      (update-IsKeyedBoard id p (arm now session) b named (λ x. refl) k) stored refl
