-- ===== src/Blackboard/Writing.antt =====
-- What a second write of a finding does (writeFinding of db.ts).
use threadwork.Prelude.{
  or_else, ℕ, suc, ◌≡◌, refl, String, true, false, ◌&&◌, Option, none, some, List, [], ◌∷◌, ◌==◌,
  arith, ltb, str_eq, eq_iff, find, length, Bool-cases, inl, inr, ap, ◌∙◌, sym,
}
use threadwork.Blackboard.{
  is_finding_status, FindingInput, Finding, Blackboard, Written, finding_written, is_duplicate,
  finding_row, insert_finding, write_finding, is_feature_enabled, column_is,
}

-- What is allowed to be written.
abbrev pub IsOpen : (String → ℕ) → FindingInput → Blackboard → Type 0
IsOpen length_of input b =
    (is_feature_enabled "blackboard_enabled" b.flags ≡ true)
    × (ltb 1000 (length_of input.summary) ≡ false)

written_lem :
    (length_of : String → ℕ) (hash : String → String) (now : ℕ) (input : FindingInput)
    (b : Blackboard)
    → IsOpen length_of input b
    → write_finding length_of hash now input b
      ≡ insert_finding now input
          (hash input.summary)
          (find (is_duplicate input (hash input.summary)) b.findings)
          b
unfolding write_finding
written_lem length_of hash now input b (on, fits) = rw (on, fits) refl

own_duplicate :
    (now id : ℕ) (input : FindingInput) (h : String) (attempt : ℕ)
    → input.attempt_id ≡ some attempt
    → is_duplicate input h (finding_row now id input h) ≡ true
unfolding is_duplicate finding_row
own_duplicate now id input h attempt e =
    let task : (input.task_id == input.task_id) ≡ true = ground arith in
    let hash : str_eq h h ≡ true = ground (arith, eq_iff h h) in
    let own : (attempt == attempt) ≡ true = ground arith in
    rw (task, hash) (ap (λ o. true && column_is o o && true) e ∙ rw own refl)

never_duplicate :
    (input : FindingInput) (h : String) (f : Finding)
    → input.attempt_id ≡ none
    → is_duplicate input h f ≡ false
unfolding is_duplicate
never_duplicate input h f e =
    ap (λ o. (f.task_id == input.task_id) && column_is f.attempt_id o && str_eq f.content_hash h) e
    ∙ (elim (Bool-cases (f.task_id == input.task_id)) [ inl e ↦ rw e refl | inr e ↦ rw e refl ])

insert_again :
    (now later : ℕ) (input : FindingInput) (h : String) (attempt : ℕ) (o : Option Finding)
    (b : Blackboard)
    → input.attempt_id ≡ some attempt
    → find (is_duplicate input h) b.findings ≡ o
    → let first = insert_finding now input h o b in
      insert_finding later input h (find (is_duplicate input h) first.1.findings) first.1
      ≡ (first.0, first.1)
unfolding insert_finding
insert_again now later input h attempt none b e none_there =
    elim (Bool-cases (is_finding_status (or_else input.status "draft"))) [
      | inl valid ↦
          let own = own_duplicate now b.next_finding_id input h attempt e in rw valid (rw own refl)
      | inr refused ↦ rw refused (rw none_there (rw refused refl))
    ]
insert_again now later input h attempt (some f) b e there = rw there refl

flags-insert_finding :
    (now : ℕ) (input : FindingInput) (h : String) (o : Option Finding) (b : Blackboard)
    → (insert_finding now input h o b).1.flags ≡ b.flags
unfolding insert_finding
flags-insert_finding now input h none b =
    elim (Bool-cases (is_finding_status (or_else input.status "draft"))) [
      | inl valid ↦ rw valid refl
      | inr refused ↦ rw refused refl
    ]
flags-insert_finding now input h (some f) b = refl

-- A finding of an attempt is written once: to write it again, at whatever time, gives the answer of the
-- first write, its id or the refusal of its status, and changes nothing.
pub write_finding_idem :
    (length_of : String → ℕ) (hash : String → String) (now later : ℕ) (input : FindingInput)
    (attempt : ℕ) (b : Blackboard)
    → IsOpen length_of input b
    → input.attempt_id ≡ some attempt
    → let first = write_finding length_of hash now input b in
      write_finding length_of hash later input first.1 ≡ first
write_finding_idem length_of hash now later input attempt b (on, fits) e =
    let h = hash input.summary in
    let o = find (is_duplicate input h) b.findings in
    let first = insert_finding now input h o b in
    let one = written_lem length_of hash now input b (on, fits) in
    let on_later : is_feature_enabled "blackboard_enabled" first.1.flags ≡ true =
      ap (is_feature_enabled "blackboard_enabled") (flags-insert_finding now input h o b) ∙ on in
    ap (λ (out : Written × Blackboard). write_finding length_of hash later input out.1) one
    ∙ written_lem length_of hash later input first.1 (on_later, fits)
    ∙ insert_again now later input h attempt o b e refl
    ∙ sym one

find_nothing :
    (input : FindingInput) (h : String) (fs : List Finding)
    → input.attempt_id ≡ none
    → find (is_duplicate input h) fs ≡ none
find_nothing input h [] e = refl
find_nothing input h (f ∷ fs) e = rw (never_duplicate input h f e) (find_nothing input h fs e)

-- A finding without an attempt and with a status of the table is written again each time: the write
-- adds a row with a new id, whatever rows with the same task and summary there are.
pub write_finding_again :
    (length_of : String → ℕ) (hash : String → String) (now : ℕ) (input : FindingInput)
    (b : Blackboard)
    → IsOpen length_of input b
    → input.attempt_id ≡ none
    → is_finding_status (or_else input.status "draft") ≡ true
    → let out = write_finding length_of hash now input b in
      (out.0 ≡ finding_written b.next_finding_id)
      × (length out.1.findings ≡ suc (length b.findings))
      × (out.1.next_finding_id ≡ suc b.next_finding_id)
unfolding insert_finding finding_row
write_finding_again length_of hash now input b allowed e valid =
    let h = hash input.summary in
    let written : insert_finding now input h none b ≡ (
      finding_written b.next_finding_id,
      record b {
        findings = finding_row now b.next_finding_id input h ∷ b.findings;
        next_finding_id = suc b.next_finding_id;
      },
    ) =
      rw valid refl in
    let out =
      written_lem length_of hash now input b allowed
      ∙ ap (λ o. insert_finding now input h o b) (find_nothing input h b.findings e)
      ∙ written in
    (
      ap (λ (x : Written × Blackboard). x.0) out,
      ap (λ (x : Written × Blackboard). length x.1.findings) out,
      ap (λ (x : Written × Blackboard). x.1.next_finding_id) out,
    )
