-- ===== src/Decisions.antt =====
-- The decisions of decision.ts (class DecisionDB and expireStaleDecisions). A call is one step: its
-- transaction is taken to commit, and a throw leaves the database as it was. The texts of the audit
-- lines are left out, and so are the columns of a memory that are the same for all decisions but have
-- no text. Times are those of the clock.
pub mod Endings
pub mod Listing
pub mod Final
pub mod Sweep
use threadwork.Prelude.Table.{update, row}
use threadwork.Prelude.{
  ℕ, suc, ◌<◌, String, Bool, true, false, not, ◌&&◌, ◌||◌, Option, none, some, List, [], ◌∷◌, ◌++◌,
  map, ◌==◌, leb, any, find, keep, length, if◌then◌else◌, or_else, is_some, is_none, str_eq,
  number_is, ltb,
}
use threadwork.Blackboard.{Flags}

pub data DecisionStatus : Type 0 where
  open_status positions_status critique_status finalized expired cancelled : DecisionStatus

pub data CritiqueSeverity : Type 0 where
  observation concern blocker : CritiqueSeverity

pub record Decision : Type 0 where
  pub id : ℕ
  pub title : String
  pub context : Option String
  pub opened_by : String
  pub status : DecisionStatus
  pub finalized_by : Option String
  pub outcome : Option String
  pub outcome_rationale : Option String
  pub expires_at : Option String
  pub memory_id : Option ℕ
  pub task_id : Option ℕ
  pub created_at : ℕ
  pub updated_at : ℕ
  pub finalized_at : Option ℕ

pub record DecisionPosition : Type 0 where
  pub id : ℕ
  pub decision_id : ℕ
  pub agent : String
  pub position : String
  pub rationale : Option String
  pub evidence : Option String
  pub created_at : ℕ

pub record DecisionCritique : Type 0 where
  pub id : ℕ
  pub decision_id : ℕ
  pub position_id : Option ℕ
  pub agent : String
  pub critique : String
  pub severity : CritiqueSeverity
  pub created_at : ℕ

pub data MemoryState : Type 0 where
  active proposed : MemoryState

-- The memory that a decision leaves.
pub record DecisionMemory : Type 0 where
  pub id : ℕ
  pub content : String
  pub state : MemoryState

-- The tables, newest rows first, with the next keys. A line of the audit log has its action and the
-- memory that it is about.
pub record DecisionDb : Type 0 where
  pub flags : Flags
  pub decisions : List Decision
  pub next_decision_id : ℕ
  pub positions : List DecisionPosition
  pub next_position_id : ℕ
  pub critiques : List DecisionCritique
  pub next_critique_id : ℕ
  pub memories : List DecisionMemory
  pub next_memory_id : ℕ
  pub audit_log : List (String × ℕ)

pub data DecisionError : Type 0 where
  not_found wrong_status : DecisionError

-- OPEN_STATUSES; TERMINAL_STATUSES are the others.
abbrev pub is_open_status : DecisionStatus → Bool
is_open_status open_status = true
is_open_status positions_status = true
is_open_status critique_status = true
is_open_status finalized = false
is_open_status expired = false
is_open_status cancelled = false

-- The statuses in which a position can be added.
abbrev pub takes_positions : DecisionStatus → Bool
takes_positions open_status = true
takes_positions positions_status = true
takes_positions critique_status = false
takes_positions finalized = false
takes_positions expired = false
takes_positions cancelled = false

unfoldable pub decision_of : ℕ → List Decision → Option Decision
decision_of id decisions = row (λ (d : Decision). d.id) id decisions

-- UPDATE decisions SET ... WHERE id = ?
unfoldable pub update_decision : ℕ → (Decision → Decision) → List Decision → List Decision
unfolding update
update_decision id f decisions = update (λ (d : Decision). d.id == id) f decisions

-- A call on a decision that is to be found, in a status that the call admits.
abbrev pub guarded :
    (DecisionStatus → Bool)
    → (Decision → DecisionDb → DecisionDb)
    → Option Decision
    → DecisionDb
    → Option DecisionError × DecisionDb
guarded admits act none db = (some not_found, db)
guarded admits act (some d) db =
    if admits d.status then (none, act d db) else (some wrong_status, db)

unfoldable pub open_decision :
    ℕ → String → Option String → String → Option String → Option ℕ → DecisionDb → DecisionDb
open_decision now title context opened_by expires_at task_id db =
    let row : Decision = record {
      id = db.next_decision_id;
      title = title;
      context = context;
      opened_by = opened_by;
      status = open_status;
      finalized_by = none;
      outcome = none;
      outcome_rationale = none;
      expires_at = expires_at;
      memory_id = none;
      task_id = task_id;
      created_at = now;
      updated_at = now;
      finalized_at = none;
    } in
    record db { decisions = row ∷ db.decisions; next_decision_id = suc db.next_decision_id }

abbrev pub positioned : ℕ → Decision → Decision
positioned now d = record d { status = positions_status; updated_at = now }

unfoldable pub add_position :
    ℕ
    → ℕ
    → String
    → String
    → Option String
    → Option String
    → DecisionDb
    → Option DecisionError × DecisionDb
unfolding decision_of update_decision
add_position now decision_id agent position rationale evidence db =
    let row : DecisionPosition = record {
      id = db.next_position_id;
      decision_id = decision_id;
      agent = agent;
      position = position;
      rationale = rationale;
      evidence = evidence;
      created_at = now;
    } in
    guarded takes_positions
      (λ d db. record db {
        decisions = update_decision decision_id (positioned now) db.decisions;
        positions = row ∷ db.positions;
        next_position_id = suc db.next_position_id;
      })
      (decision_of decision_id db.decisions) db

abbrev pub critiqued : ℕ → Decision → Decision
critiqued now d = record d { status = critique_status; updated_at = now }

unfoldable pub add_critique :
    ℕ
    → ℕ
    → String
    → String
    → Option ℕ
    → Option CritiqueSeverity
    → DecisionDb
    → Option DecisionError × DecisionDb
unfolding decision_of update_decision
add_critique now decision_id agent critique position_id severity db =
    let row : DecisionCritique = record {
      id = db.next_critique_id;
      decision_id = decision_id;
      position_id = position_id;
      agent = agent;
      critique = critique;
      severity = or_else severity observation;
      created_at = now;
    } in
    guarded is_open_status
      (λ d db. record db {
        decisions = update_decision decision_id (critiqued now) db.decisions;
        critiques = row ∷ db.critiques;
        next_critique_id = suc db.next_critique_id;
      })
      (decision_of decision_id db.decisions) db

abbrev pub ended_cancelled : ℕ → String → Decision → Decision
ended_cancelled now reason d = record d {
  status = cancelled;
  outcome_rationale = some reason;
  updated_at = now;
}

unfoldable pub cancel_decision : ℕ → ℕ → String → DecisionDb → Option DecisionError × DecisionDb
unfolding decision_of update_decision
cancel_decision now decision_id reason db =
    guarded is_open_status
      (λ d db. record db {
        decisions = update_decision decision_id (ended_cancelled now reason) db.decisions;
      })
      (decision_of decision_id db.decisions) db
