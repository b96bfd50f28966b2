-- ===== src/Decisions/Endings.antt =====
-- How a decision ends (finalizeDecision and expireDecision of decision.ts), and the memory that it
-- leaves.
use Prim.Native.String.{◌++◌ as text_append}
use threadwork.Prelude.{
  ℕ, suc, String, Bool, true, false, ◌||◌, Option, some, List, [], ◌∷◌, ◌++◌, map, ◌==◌, leb, any,
  keep, length, if◌then◌else◌, str_eq,
}
use threadwork.Blackboard.{is_feature_enabled}
use threadwork.Integrity.{
  Host, agent_source, system_source, SanitizeResult, sanitize_memory_content, escape_fence_fragment,
}
use threadwork.Decisions.{
  finalized, expired, Decision, DecisionPosition, active, proposed, DecisionMemory, DecisionDb,
  DecisionError, is_open_status, decision_of, update_decision, guarded,
}

-- A row in the place that an ORDER BY gives it: behind those that come before it.
unfoldable pub insert_ordered {ℓ} : {A : Type ℓ} → (A → A → Bool) → A → List A → List A
insert_ordered before x [] = x ∷ []
insert_ordered before x (y ∷ later) =
    let rest = insert_ordered before x later in if before y x then y ∷ rest else x ∷ y ∷ later

unfoldable pub order_by {ℓ} : {A : Type ℓ} → (A → A → Bool) → List A → List A
unfolding insert_ordered
order_by before [] = []
order_by before (x ∷ older) = insert_ordered before x (order_by before older)

-- ORDER BY created_at ASC, rows of one time by id.
unfoldable pub positions_of : ℕ → DecisionDb → List DecisionPosition
unfolding order_by
positions_of id db =
    order_by (λ (p q : DecisionPosition). leb p.created_at q.created_at)
      (keep (λ (p : DecisionPosition). p.decision_id == id) db.positions)

-- A fragment of an agent, sanitized where that is switched on.
abbrev pub fragment : Host → Bool → String → SanitizeResult
fragment h true text = sanitize_memory_content h text agent_source
fragment h false text = record { text = text; neutralized = false; tripped = [] }

abbrev pub concat : List String → String
concat [] = ""
concat (text ∷ later) = text_append text (concat later)

abbrev pub join : String → List String → String
join separator [] = ""
join separator (text ∷ []) = text
join separator (text ∷ other ∷ later) =
    concat (text ∷ separator ∷ join separator (other ∷ later) ∷ [])

abbrev pub position_line : Host → Bool → DecisionPosition → String
position_line h true p = concat (
    "<agent-said agent=\""
    ∷ escape_fence_fragment h p.agent
    ∷ "\">"
    ∷ escape_fence_fragment h (fragment h true p.position).text
    ∷ "</agent-said>"
    ∷ [])
position_line h false p = concat (p.agent ∷ ": " ∷ p.position ∷ [])

unfoldable pub position_summary : Host → Bool → List DecisionPosition → String
position_summary h on positions =
    if length positions == 0
    then ""
    else text_append "\nPositions: " (join "; " (map (position_line h on) positions))

-- The pass over the whole content.
abbrev pub final_pass : Host → Bool → String → SanitizeResult
final_pass h true content = sanitize_memory_content h content system_source
final_pass h false content = record { text = content; neutralized = false; tripped = [] }

abbrev pub audit_lines : Bool → List String → ℕ → List (String × ℕ)
audit_lines neutralized tripped id =
    if neutralized
    then if any (str_eq "forged-trust-marker") tripped
      then ("memory_marker_neutralized", id) ∷ ("decision_content_sanitized", id) ∷ []
      else ("decision_content_sanitized", id) ∷ []
    else []

abbrev pub all_tripped : List SanitizeResult → List String
all_tripped [] = []
all_tripped (r ∷ later) = r.tripped ++ all_tripped later

-- The memory of the content, with the fragments that it was assembled from, and the end of the
-- decision, which is linked to the memory.
unfoldable pub remember :
    Host → Bool → String → List SanitizeResult → ℕ → (Decision → Decision) → DecisionDb → DecisionDb
unfolding update_decision
remember h on content fragments id ended db =
    let final = final_pass h on content in
    let neutralized = any (λ (r : SanitizeResult). r.neutralized) fragments || final.neutralized in
    let memory : DecisionMemory = record {
      id = db.next_memory_id;
      content = final.text;
      state = if neutralized then proposed else active;
    } in
    let linked = λ (d : Decision). record (ended d) { memory_id = some db.next_memory_id } in
    record db {
      decisions = update_decision id linked db.decisions;
      memories = memory ∷ db.memories;
      next_memory_id = suc db.next_memory_id;
      audit_log =
          audit_lines neutralized (all_tripped fragments ++ final.tripped) db.next_memory_id
          ++ db.audit_log;
    }

abbrev pub ended_finalized : ℕ → String → String → String → Decision → Decision
ended_finalized now finalized_by outcome rationale d = record d {
  status = finalized;
  finalized_by = some finalized_by;
  outcome = some outcome;
  outcome_rationale = some rationale;
  finalized_at = some now;
  updated_at = now;
}

unfoldable pub write_finalized :
    Host → ℕ → ℕ → String → String → String → Decision → DecisionDb → DecisionDb
unfolding is_feature_enabled positions_of position_summary remember
write_finalized h now decision_id finalized_by outcome rationale d db =
    let on = is_feature_enabled "memory_sanitization_enabled" db.flags in
    let positions = positions_of decision_id db in
    let title' = fragment h on d.title in
    let outcome' = fragment h on outcome in
    let rationale' = fragment h on rationale in
    remember h on
      (concat (
        "Decision #"
        ∷ h.number_text decision_id
        ∷ ": "
        ∷ title'.text
        ∷ "\nOutcome: "
        ∷ outcome'.text
        ∷ "\nRationale: "
        ∷ rationale'.text
        ∷ position_summary h on positions
        ∷ []))
      (title'
        ∷ outcome'
        ∷ rationale'
        ∷ map (λ (p : DecisionPosition). fragment h on p.position) positions)
      decision_id (ended_finalized now finalized_by outcome rationale) db

unfoldable pub finalize_decision :
    Host → ℕ → ℕ → String → String → String → DecisionDb → Option DecisionError × DecisionDb
unfolding decision_of write_finalized
finalize_decision h now decision_id finalized_by outcome rationale db =
    guarded is_open_status (write_finalized h now decision_id finalized_by outcome rationale)
      (decision_of decision_id db.decisions) db

abbrev pub ended_expired : ℕ → Decision → Decision
ended_expired now d = record d {
  status = expired;
  outcome = some "Expired without finalization";
  finalized_at = some now;
  updated_at = now;
}

unfoldable pub write_expired : Host → ℕ → ℕ → Decision → DecisionDb → DecisionDb
unfolding is_feature_enabled positions_of position_summary remember
write_expired h now decision_id d db =
    let on = is_feature_enabled "memory_sanitization_enabled" db.flags in
    let positions = positions_of decision_id db in
    let title' = fragment h on d.title in
    remember h on
      (concat (
        "Decision #"
        ∷ h.number_text decision_id
        ∷ " EXPIRED: "
        ∷ title'.text
        ∷ "\nExpired without finalization."
        ∷ position_summary h on positions
        ∷ []))
      (title' ∷ map (λ (p : DecisionPosition). fragment h on p.position) positions) decision_id
      (ended_expired now) db

unfoldable pub expire_decision : Host → ℕ → ℕ → DecisionDb → Option DecisionError × DecisionDb
unfolding decision_of write_expired
expire_decision h now decision_id db =
    guarded is_open_status (write_expired h now decision_id) (decision_of decision_id db.decisions)
      db
