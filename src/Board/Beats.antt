-- ===== src/Board/Beats.antt =====
-- Heartbeats of a task (updateHeartbeat of db.ts): when it is due next.
use threadwork.Prelude.{
  ℕ, ◌+◌, ◌≡◌, refl, ap, ◌∙◌, Bool, true, false, not, none, some, ◌==◌, if◌then◌else◌, or_else,
  arith, Bool-cases, inl, inr, str_eq,
}
use threadwork.Prelude.Table.{key-row}
use threadwork.Board.Task.{Task, Board, get_row, update_returning}
use threadwork.Board.Heartbeat.{
  HeartbeatInput, update_heartbeat, beat, beat_found, beat_blocked, beat_clear, timeout_sec,
  persist_eta,
}
use threadwork.Board.Statement.{key, IsKeyedBoard, update_hit, update-IsKeyedBoard}
use threadwork.Sessions.{Sessions, decay_fault}

abbrev has_id : ℕ → Task → Bool
has_id id t = t.id == id

refl_id : (i : ℕ) → (i == i) ≡ true
refl_id i = ground arith

if-true {ℓ} : {A : Type ℓ} (c : Bool) (x y : A) → c ≡ true → (if c then x else y) ≡ x
if-true c x y e = rw e refl

if-false {ℓ} : {A : Type ℓ} (c : Bool) (x y : A) → c ≡ false → (if c then x else y) ≡ y
if-false c x y e = rw e refl

-- What a heartbeat returns and stores is the row that it writes.
module _ (now : ℕ) (input : HeartbeatInput) (b : Board) (s : Sessions) (t : Task)
    (k : IsKeyedBoard b) (r : get_row input.task_id b.tasks ≡ some t) where
  stored :
      (f : Task → Task)
      → ((u : Task) → (f u).id ≡ u.id)
      → let after = update_returning (has_id input.task_id) f b in
        (after.0 ≡ some (f t)) × (get_row input.task_id after.1.tasks ≡ some (f t))
  stored f keeps =
      update_hit input.task_id (has_id input.task_id) f b (λ x h. ground arith) t k keeps r
        (rw (key-row key input.task_id b.tasks r) (refl_id input.task_id))

  opened : update_heartbeat now input b s ≡ beat now input t b s
  unfolding update_heartbeat beat_found
  opened = ap (beat_found now input b s) r

  opened_blocked :
      or_else input.is_blocked false ≡ true
      → update_heartbeat now input b s
        ≡ (update_returning (has_id input.task_id) (beat_blocked now input) b, s)
  opened_blocked e = opened ∙ (unfold beat in if-true (or_else input.is_blocked false) _ _ e)

  opened_clear :
      or_else input.is_blocked false ≡ false
      → update_heartbeat now input b s ≡ (
        update_returning (has_id input.task_id) (beat_clear now input (timeout_sec input t)) b,
        if not (str_eq t.kind "subagent") then decay_fault t.to_agent s else s,
      )
  opened_clear e = opened ∙ (unfold beat in if-false (or_else input.is_blocked false) _ _ e)

-- The row that a heartbeat writes.
abbrev pub beaten : ℕ → HeartbeatInput → Task → Task
beaten now input t =
    if or_else input.is_blocked false
    then beat_blocked now input t
    else beat_clear now input (timeout_sec input t) t

-- A heartbeat of a row that is there returns and stores the row that it writes: the blocked row if it
-- is blocked, else the clear one. It lowers the fault count of the row's agent exactly if it is not
-- blocked and the row is no sub-agent's.
pub heartbeat_lem :
    (now : ℕ) (input : HeartbeatInput) (b : Board) (s : Sessions) (t : Task)
    → IsKeyedBoard b
    → get_row input.task_id b.tasks ≡ some t
    → let after = update_heartbeat now input b s in
      (after.0.0 ≡ some (beaten now input t))
      × (get_row input.task_id after.0.1.tasks ≡ some (beaten now input t))
      × (after.1 ≡ (
          if or_else input.is_blocked false
          then s
          else if not (str_eq t.kind "subagent")
          then decay_fault t.to_agent s
          else s))
heartbeat_lem now input b s t k r = elim (Bool-cases (or_else input.is_blocked false)) [
  | inl e ↦
      let (returned, kept) =
        stored now input b s t k r (beat_blocked now input) (unfold beat_blocked in λ u. refl) in
      rw (e, opened_blocked now input b s t k r e) (returned, kept, refl)
  | inr e ↦
      let (returned, kept) =
        stored now input b s t k r (beat_clear now input (timeout_sec input t))
          (unfold beat_clear in λ u. refl) in
      rw (e, opened_clear now input b s t k r e) (returned, kept, refl)
]

-- What heartbeat_lem says of the stored row, for the heartbeat that comes next.
second :
    (now : ℕ) (input : HeartbeatInput) (b : Board) (s : Sessions) (t : Task)
    → IsKeyedBoard b
    → get_row input.task_id b.tasks ≡ some t
    → IsKeyedBoard (update_heartbeat now input b s).0.1
second now input b s t k r = elim (Bool-cases (or_else input.is_blocked false)) [
  | inl e ↦ rw (opened_blocked now input b s t k r e) (
      update-IsKeyedBoard input.task_id (has_id input.task_id) (beat_blocked now input) b
        (λ x h. ground arith) (unfold beat_blocked in λ u. refl) k)
  | inr e ↦ rw (opened_clear now input b s t k r e) (
      update-IsKeyedBoard input.task_id (has_id input.task_id)
        (beat_clear now input (timeout_sec input t)) b (λ x h. ground arith)
        (unfold beat_clear in λ u. refl) k)
]

kept_eta :
    (now eta : ℕ) (input : HeartbeatInput) (t : Task)
    → input.eta_sec ≡ some eta
    → (beaten now input t).last_eta_sec ≡ some eta
unfolding beat_blocked beat_clear persist_eta
kept_eta now eta input t e = elim (Bool-cases (or_else input.is_blocked false)) [
  | inl h ↦ rw (h, e) refl
  | inr h ↦ rw (h, e) refl
]

due_later :
    (later eta : ℕ) (input : HeartbeatInput) (t : Task)
    → t.last_eta_sec ≡ some eta
    → input.eta_sec ≡ none
    → or_else input.is_blocked false ≡ false
    → ((beaten later input t).next_check_at ≡ some (later + eta))
      × ((beaten later input t).blocked_at ≡ none)
unfolding beat_clear timeout_sec
due_later later eta input t e1 e2 clear = rw (clear, e2, e1) (refl, refl)

-- An eta outlives the heartbeat that gave it, blocked or not: after it, a heartbeat of the same task
-- that is not blocked and gives no eta makes the task due that many seconds later, and ends the block.
pub eta_inherited :
    (now later eta : ℕ) (i1 i2 : HeartbeatInput) (b : Board) (s : Sessions) (t : Task)
    → IsKeyedBoard b
    → get_row i1.task_id b.tasks ≡ some t
    → i2.task_id ≡ i1.task_id
    → i1.eta_sec ≡ some eta
    → i2.eta_sec ≡ none
    → or_else i2.is_blocked false ≡ false
    → let (out1, s1) = update_heartbeat now i1 b s in
      (u : Task) × ((update_heartbeat later i2 out1.1 s1).0.0 ≡ some u)
      × (u.next_check_at ≡ some (later + eta))
      × (u.blocked_at ≡ none)
eta_inherited now later eta i1 i2 b s t k r same e1 e2 clear =
    let after = update_heartbeat now i1 b s in
    let t1 = beaten now i1 t in
    let r1 : get_row i2.task_id after.0.1.tasks ≡ some t1 =
      let (x, y, z) = heartbeat_lem now i1 b s t k r in rw same y in
    let k1 = second now i1 b s t k r in
    let (returned, kept, charged) = heartbeat_lem later i2 after.0.1 after.1 t1 k1 r1 in
    let (due, free) = due_later later eta i2 t1 (kept_eta now eta i1 t e1) e2 clear in
    (beaten later i2 t1, returned, due, free)
