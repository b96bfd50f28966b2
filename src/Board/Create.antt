-- ===== src/Board/Create.antt =====
-- createTask and delegateTask of db.ts: what they insert and what they throw.
use Prim.Native.String.{len}
use threadwork.Prelude.{
  ℕ, ◌+◌, String, Bool, true, false, ◌&&◌, not, Option, none, some, ◌∷◌, str_eq, ltb, if◌then◌else◌,
  or_else, is_none,
}
use threadwork.Board.Task.{Task, Board, plain, is_in_progress, default_task, get_row}

-- What TaskDB throws.
pub data Error : Type 0 where
  brief_too_large parent_not_found parent_not_in_progress : Error
  prep_and_addendum addendum_parent_open prep_parent_closed supervisor_required : Error

-- A call that returns or throws.
pub data Call {ℓ} (A : Type ℓ) : Type ℓ where
  returns : A → Call A
  throws : Error → Call A

infixl 5 ◌>>=◌ ◌>>◌
abbrev pub ◌>>=◌ {ℓ κ} : {A : Type ℓ} {B : Type κ} → Call A → (A → Call B) → Call B
call >>= rest = elim call [ returns x ↦ rest x | throws problem ↦ throws problem ]

abbrev pub ◌>>◌ {ℓ} : {A : Type ℓ} → Call (Unit {0}) → Call A → Call A
check >> rest = check >>= λ passed. rest

-- if (!passed) throw problem
abbrev pub throw_unless : Bool → Error → Call (Unit {0})
throw_unless passed problem = if passed then returns tt else throws problem

-- config.ts
abbrev pub heartbeat_timeout_default : ℕ
heartbeat_timeout_default = 120

abbrev pub progress_timeout_default : ℕ
progress_timeout_default = 600

abbrev pub unclaimed_check_sec : ℕ
unclaimed_check_sec = 60

abbrev pub brief_max_bytes : ℕ
brief_max_bytes = 8000

-- The trigger trg_require_supervision: from_agent != to_agent and no supervisor. A comparison with
-- NULL does not hold.
unfoldable pub is_unsupervised : Task → Bool
is_unsupervised t = elim t.to_agent [
  | none ↦ false
  | some to ↦ not (str_eq t.from_agent to) && is_none t.supervisor_agent
]

-- INSERT INTO tasks … RETURNING *
unfoldable pub insert_row : Task → Board → Call (Task × Board)
unfolding is_unsupervised
insert_row t b =
    if is_unsupervised t
    then throws supervisor_required
    else returns (t, record { tasks = t ∷ b.tasks; next_id = b.next_id + 1 })

-- The sender supervises what it hands to another agent.
unfoldable pub created_row : ℕ → ℕ → String → Option String → String → String → Task
unfolding default_task
created_row id now from to description priority =
    let supervisor : Option String = elim to [
      | none ↦ none
      | some a ↦ if str_eq from a then none else some from
    ] in
    let row = default_task id now from to (plain description) priority in
    record row { supervisor_agent = supervisor }

unfoldable pub create_task :
    ℕ → String → Option String → String → String → Board → Call (Task × Board)
unfolding created_row insert_row
create_task now from to description priority b =
    insert_row (created_row b.next_id now from to description priority) b

pub record DelegateTaskInput : Type 0 where
  pub from : String
  pub to : String
  pub description : String
  pub priority : String
  pub supervisor_agent : String
  pub parent_task_id : Option ℕ
  pub heartbeat_timeout_sec : Option ℕ
  pub progress_timeout_sec : Option ℕ
  pub kind : Option String
  pub delegation_brief : Option String

unfoldable pub brief_fits : Option String → Bool
brief_fits none = true
brief_fits (some brief) = not (ltb brief_max_bytes (len brief))

-- The parent, if one is named, has to be there and in progress.
unfoldable pub check_parent : Option ℕ → Board → Call (Unit {0})
check_parent none b = returns tt
check_parent (some p) b = elim (get_row p b.tasks) [
  | none ↦ throws parent_not_found
  | some parent ↦ throw_unless (is_in_progress parent.status) parent_not_in_progress
]

unfoldable pub delegated_row : ℕ → ℕ → DelegateTaskInput → Task
unfolding default_task
delegated_row id now input =
    let row =
      default_task id now input.from (some input.to) (plain input.description) input.priority in
    record row {
      supervisor_agent = some input.supervisor_agent;
      kind = or_else input.kind "task";
      parent_task_id = input.parent_task_id;
      heartbeat_timeout_sec = some (or_else input.heartbeat_timeout_sec heartbeat_timeout_default);
      progress_timeout_sec = some (or_else input.progress_timeout_sec progress_timeout_default);
      next_check_at = some (now + unclaimed_check_sec);
      delegation_brief = input.delegation_brief;
    }

unfoldable pub delegate_task : ℕ → DelegateTaskInput → Board → Call (Task × Board)
unfolding brief_fits check_parent delegated_row insert_row
delegate_task now input b = do
  throw_unless (brief_fits input.delegation_brief) brief_too_large
  check_parent input.parent_task_id b
  insert_row (delegated_row b.next_id now input) b
