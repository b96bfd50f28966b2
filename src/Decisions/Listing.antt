-- ===== src/Decisions/Listing.antt =====
-- The reads of decision.ts, and expireStaleDecisions, which goes through the open decisions.
use Prim.Native.String.{compare as text_compare}
use text.Mathlib.Text.{is_lt}
use threadwork.Prelude.{
  true, false, ℕ, suc, String, Bool, false, not, ◌&&◌, ◌||◌, Option, none, some, List, [], ◌∷◌,
  ◌==◌, leb, keep, if◌then◌else◌, is_none, str_eq, number_is, ltb, or_else,
}
use threadwork.Blackboard.{given, take}
use threadwork.Integrity.{Host}
use threadwork.Decisions.{
  Decision, DecisionPosition, DecisionCritique, DecisionDb, is_open_status, decision_of,
  DecisionStatus, open_status, positions_status, critique_status, finalized, expired, cancelled,
}
use threadwork.Decisions.Endings.{order_by, positions_of, expire_decision}

unfoldable pub critiques_of : ℕ → DecisionDb → List DecisionCritique
unfolding order_by
critiques_of id db =
    order_by (λ (p q : DecisionCritique). leb p.created_at q.created_at)
      (keep (λ (c : DecisionCritique). c.decision_id == id) db.critiques)

unfoldable pub get_decision :
    ℕ → DecisionDb → Option (Decision × List DecisionPosition × List DecisionCritique)
unfolding decision_of positions_of critiques_of
get_decision id db = detailed (decision_of id db.decisions)
  where
    detailed : Option Decision → Option (Decision × List DecisionPosition × List DecisionCritique)
    detailed none = none
    detailed (some d) = some (d, positions_of id db, critiques_of id db)

-- A filter that is left out, or empty, admits every row.
abbrev pub is_filtered : Option String → Option ℕ → Decision → Bool
is_filtered agent task_id d =
    given agent (λ a. str_eq a "" || str_eq d.opened_by a)
    && given task_id (λ t. (t == 0) || number_is d.task_id t)

-- ORDER BY created_at DESC, rows of one time by falling id.
abbrev pub newest_first : List Decision → List Decision
newest_first decisions = order_by (λ (d e : Decision). ltb e.created_at d.created_at) decisions

unfoldable pub get_open_decisions : Option String → Option ℕ → DecisionDb → List Decision
unfolding order_by
get_open_decisions agent task_id db =
    newest_first
      (keep (λ (d : Decision). is_open_status d.status && is_filtered agent task_id d) db.decisions)

abbrev pub same_status : DecisionStatus → DecisionStatus → Bool
same_status open_status open_status = true
same_status positions_status positions_status = true
same_status critique_status critique_status = true
same_status finalized finalized = true
same_status expired expired = true
same_status cancelled cancelled = true
same_status _ _ = false

-- A list of 50, unless a limit is given. The status "open" stands for all the open ones: `none` here.
unfoldable pub get_decisions_by_status :
    Option DecisionStatus → Option ℕ → DecisionDb → List Decision
unfolding order_by
get_decisions_by_status status limit db = take (or_else limit 50) (newest_first (listed status))
  where
    listed : Option DecisionStatus → List Decision
    listed none = keep (λ (d : Decision). is_open_status d.status) db.decisions
    listed (some s) = keep (λ (d : Decision). same_status s d.status) db.decisions

-- `d.expires_at && d.expires_at < now`, on texts.
abbrev pub is_stale : String → Decision → Bool
is_stale now_text d = stale d.expires_at
  where
    stale : Option String → Bool
    stale none = false
    stale (some t) = not (str_eq t "") && is_lt (text_compare t now_text)

-- The loop over the open decisions as they were read, with the count of those that expired.
unfoldable pub expire_each : Host → ℕ → String → List Decision → DecisionDb → ℕ × DecisionDb
unfolding expire_decision
expire_each h now now_text [] db = (0, db)
expire_each h now now_text (d ∷ later) db =
    let out = expire_decision h now d.id db in
    let next = if is_stale now_text d then out.1 else db in
    let rest = expire_each h now now_text later next in
    (if is_stale now_text d && is_none out.0 then (suc rest.0, rest.1) else rest)

unfoldable pub expire_stale_decisions : Host → ℕ → String → DecisionDb → ℕ × DecisionDb
unfolding get_open_decisions expire_each
expire_stale_decisions h now now_text db =
    expire_each h now now_text (get_open_decisions none none db) db
