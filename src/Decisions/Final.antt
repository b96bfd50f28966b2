-- ===== src/Decisions/Final.antt =====
-- The end of a decision is final (decision.ts).
use threadwork.Prelude.{
  ℕ, ◌<◌, ◌≡◌, refl, String, Bool, true, false, Option, none, some, List, [], ◌∷◌, arith, ◌==◌,
  if◌then◌else◌, Bool-cases, is_none, inl, inr, ap, ◌∙◌,
}
use threadwork.Prelude.Table.{update}
use threadwork.Integrity.{Host}
use threadwork.Decisions.{
  DecisionStatus, open_status, positions_status, critique_status, finalized, expired, cancelled,
  Decision, CritiqueSeverity, DecisionDb, is_open_status, takes_positions, decision_of,
  update_decision, guarded, open_decision, add_position, add_critique, cancel_decision, positioned,
  critiqued, ended_cancelled,
}
use threadwork.Decisions.Endings.{
  finalize_decision, expire_decision, write_finalized, write_expired, remember, ended_finalized,
  ended_expired,
}
use threadwork.Decisions.Listing.{expire_each, expire_stale_decisions, get_open_decisions, is_stale}

-- A call of the class, or the sweep at a time that is given as a text too.
pub data Op : Type 0 where
  opens : String → Option String → String → Option String → Option ℕ → Op
  gives_position : ℕ → String → String → Option String → Option String → Op
  criticizes : ℕ → String → String → Option ℕ → Option CritiqueSeverity → Op
  finalizes : ℕ → String → String → String → Op
  cancels : ℕ → String → Op
  expires : ℕ → Op
  sweeps : String → Op

-- The database after a call at a time, whether it throws or not.
unfoldable pub apply : Host → ℕ → Op → DecisionDb → DecisionDb
unfolding open_decision add_position add_critique finalize_decision cancel_decision expire_decision
    expire_stale_decisions
apply h now (opens title context opened_by expires_at task_id) db =
    open_decision now title context opened_by expires_at task_id db
apply h now (gives_position id agent position rationale evidence) db =
    (add_position now id agent position rationale evidence db).1
apply h now (criticizes id agent critique position_id severity) db =
    (add_critique now id agent critique position_id severity db).1
apply h now (finalizes id finalized_by outcome rationale) db =
    (finalize_decision h now id finalized_by outcome rationale db).1
apply h now (cancels id reason) db = (cancel_decision now id reason db).1
apply h now (expires id) db = (expire_decision h now id db).1
apply h now (sweeps now_text) db = (expire_stale_decisions h now now_text db).1

unfoldable pub run : Host → List (ℕ × Op) → DecisionDb → DecisionDb
unfolding apply
run h [] db = db
run h ((now, op) ∷ later) db = run h later (apply h now op db)

-- The decision is there as the row given, below the next id.
pub record Stands (id : ℕ) (d : Decision) (db : DecisionDb) : Type 0 where
  pub below : id < db.next_decision_id
  pub found : decision_of id db.decisions ≡ some d

-- An update of another decision leaves the row.
pub other_update :
    (id j : ℕ) (f : Decision → Decision) (ds : List Decision)
    → ((d : Decision) → (f d).id ≡ d.id)
    → (j == id) ≡ false
    → decision_of id (update_decision j f ds) ≡ decision_of id ds
unfolding decision_of update_decision update
other_update id j f [] keeps apart = refl
other_update id j f (d ∷ later) keeps apart = elim (Bool-cases (d.id == j)) [
  | inl hit ↦
      let miss : (d.id == id) ≡ false = ground (arith, hit, apart) in
      let miss_after : ((f d).id == id) ≡ false = rw (keeps d) miss in
      rw (hit, miss, miss_after) (other_update id j f later keeps apart)
  | inr skip ↦
      rw skip (ap (λ o. if d.id == id then some d else o) (other_update id j f later keeps apart))
]

-- A call that admits only open decisions, and only updates its own.
pub record Updates (j : ℕ) (act : Decision → DecisionDb → DecisionDb) : Type 0 where
  f : DecisionDb → Decision → Decision
  keeps : (db : DecisionDb) (d : Decision) → (f db d).id ≡ d.id
  updates :
      (d : Decision) (db : DecisionDb)
      → (act d db).decisions ≡ update_decision j (f db) db.decisions
  next : (d : Decision) (db : DecisionDb) → (act d db).next_decision_id ≡ db.next_decision_id

refuse_ended :
    (admits : DecisionStatus → Bool) (act : Decision → DecisionDb → DecisionDb) (d : Decision)
    (db : DecisionDb)
    → ((s : DecisionStatus) → admits s ≡ true → is_open_status s ≡ true)
    → is_open_status d.status ≡ false
    → (guarded admits act (some d) db).1 ≡ db
refuse_ended admits act d db only_open ended = elim (Bool-cases (admits d.status)) [
  | inl admitted ↦ let live = only_open d.status admitted in cc
  | inr refused ↦ rw refused refl
]

pub act-Stands :
    (admits : DecisionStatus → Bool) (act : Decision → DecisionDb → DecisionDb) (id j : ℕ)
    (d : Decision) (o : Option Decision) (db : DecisionDb)
    → Updates j act
    → (j == id) ≡ false
    → Stands id d db
    → Stands id d (guarded admits act o db).1
act-Stands admits act id j d none db u apart s = s
act-Stands admits act id j d (some x) db u apart s = elim (Bool-cases (admits x.status)) [
  | inl admitted ↦ rw admitted (record {
    below = rw (u.next x db) s.below;
    found =
        ap (decision_of id) (u.updates x db)
        ∙ other_update id j (u.f db) db.decisions (u.keeps db) apart
        ∙ s.found;
  })
  | inr refused ↦ rw refused s
]

guarded-Stands :
    (admits : DecisionStatus → Bool) (act : Decision → DecisionDb → DecisionDb) (id j : ℕ)
    (d : Decision) (db : DecisionDb)
    → ((s : DecisionStatus) → admits s ≡ true → is_open_status s ≡ true)
    → Updates j act
    → is_open_status d.status ≡ false
    → Stands id d db
    → Stands id d (guarded admits act (decision_of j db.decisions) db).1
guarded-Stands admits act id j d db only_open u ended s = elim (Bool-cases (j == id)) [
  | inl own ↦
      let same : j ≡ id = ground (arith, own) in
      let here : decision_of j db.decisions ≡ some d =
        ap (λ i. decision_of i db.decisions) same ∙ s.found in
      rw (here, refuse_ended admits act d db only_open ended) s
  | inr apart ↦ act-Stands admits act id j d (decision_of j db.decisions) db u apart s
]

positions_open : (s : DecisionStatus) → takes_positions s ≡ true → is_open_status s ≡ true
positions_open open_status e = refl
positions_open positions_status e = refl
positions_open critique_status e = refl
positions_open finalized e = cc
positions_open expired e = cc
positions_open cancelled e = cc

abbrev pub linked : (Decision → Decision) → DecisionDb → Decision → Decision
linked ended db d = record (ended d) { memory_id = some db.next_memory_id }

pub expire-Updates : (h : Host) (now j : ℕ) → Updates j (write_expired h now j)
unfolding write_expired remember
expire-Updates h now j = record {
  f = linked (ended_expired now);
  keeps = λ db d. refl;
  updates = λ d db. refl;
  next = λ d db. refl;
}

finalize-Updates :
    (h : Host) (now j : ℕ) (finalized_by outcome rationale : String)
    → Updates j (write_finalized h now j finalized_by outcome rationale)
unfolding write_finalized remember
finalize-Updates h now j finalized_by outcome rationale = record {
  f = linked (ended_finalized now finalized_by outcome rationale);
  keeps = λ db d. refl;
  updates = λ d db. refl;
  next = λ d db. refl;
}

expire-Stands :
    (h : Host) (now id j : ℕ) (d : Decision) (db : DecisionDb)
    → is_open_status d.status ≡ false
    → Stands id d db
    → Stands id d (expire_decision h now j db).1
unfolding expire_decision
expire-Stands h now id j d db ended s =
    guarded-Stands is_open_status (write_expired h now j) id j d db (λ t e. e)
      (expire-Updates h now j) ended s

pub sweep-Stands :
    (h : Host) (now : ℕ) (now_text : String) (id : ℕ) (d : Decision) (ds : List Decision)
    (db : DecisionDb)
    → is_open_status d.status ≡ false
    → Stands id d db
    → Stands id d (expire_each h now now_text ds db).1
unfolding expire_each
sweep-Stands h now now_text id d [] db ended s = s
sweep-Stands h now now_text id d (x ∷ later) db ended s =
    let out = expire_decision h now x.id db in
    let after = expire-Stands h now id x.id d db ended s in
    elim (Bool-cases (is_stale now_text x)) [
      | inl stale ↦ rw stale (elim (Bool-cases (is_none out.0)) [
        | inl done ↦ rw done (sweep-Stands h now now_text id d later out.1 ended after)
        | inr failed ↦ rw failed (sweep-Stands h now now_text id d later out.1 ended after)
      ])
      | inr fresh ↦ rw fresh (sweep-Stands h now now_text id d later db ended s)
    ]

apply-Stands :
    (h : Host) (now : ℕ) (op : Op) (id : ℕ) (d : Decision) (db : DecisionDb)
    → is_open_status d.status ≡ false
    → Stands id d db
    → Stands id d (apply h now op db)
unfolding apply open_decision add_position add_critique finalize_decision cancel_decision
    expire_stale_decisions decision_of
apply-Stands h now (opens title context opened_by expires_at task_id) id d db ended s =
    let apart : (db.next_decision_id == id) ≡ false = ground (arith, s.below) in
    record { below = omega (arith, s.below); found = rw apart s.found }
apply-Stands h now (gives_position j agent position rationale evidence) id d db ended s =
    guarded-Stands takes_positions _ id j d db positions_open
      (record {
        f = λ b. positioned now;
        keeps = λ b x. refl;
        updates = λ x b. refl;
        next = λ x b. refl;
      })
      ended s
apply-Stands h now (criticizes j agent critique position_id severity) id d db ended s =
    guarded-Stands is_open_status _ id j d db (λ t e. e)
      (record {
        f = λ b. critiqued now;
        keeps = λ b x. refl;
        updates = λ x b. refl;
        next = λ x b. refl;
      })
      ended s
apply-Stands h now (finalizes j finalized_by outcome rationale) id d db ended s =
    guarded-Stands is_open_status (write_finalized h now j finalized_by outcome rationale) id j d db
      (λ t e. e) (finalize-Updates h now j finalized_by outcome rationale) ended s
apply-Stands h now (cancels j reason) id d db ended s =
    guarded-Stands is_open_status _ id j d db (λ t e. e)
      (record {
        f = λ b. ended_cancelled now reason;
        keeps = λ b x. refl;
        updates = λ x b. refl;
        next = λ x b. refl;
      })
      ended s
apply-Stands h now (expires j) id d db ended s = expire-Stands h now id j d db ended s
apply-Stands h now (sweeps now_text) id d db ended s =
    sweep-Stands h now now_text id d (get_open_decisions none none db) db ended s

run-Stands :
    (h : Host) (ops : List (ℕ × Op)) (id : ℕ) (d : Decision) (db : DecisionDb)
    → is_open_status d.status ≡ false
    → Stands id d db
    → decision_of id (run h ops db).decisions ≡ some d
unfolding run
run-Stands h [] id d db ended s = s.found
run-Stands h ((now, op) ∷ later) id d db ended s =
    run-Stands h later id d (apply h now op db) ended (apply-Stands h now op id d db ended s)

-- The end of a decision is final: a decision that is finalized, expired or cancelled, with an id below
-- the next one, is the same row for ever, with the same outcome and the same memory, whatever calls
-- and sweeps follow, at whatever times and whether they throw or not.
pub ended_for_ever :
    (h : Host) (ops : List (ℕ × Op)) (id : ℕ) (d : Decision) (db : DecisionDb)
    → id < db.next_decision_id
    → decision_of id db.decisions ≡ some d
    → is_open_status d.status ≡ false
    → decision_of id (run h ops db).decisions ≡ some d
ended_for_ever h ops id d db below found ended =
    run-Stands h ops id d db ended (record { below = below; found = found })
