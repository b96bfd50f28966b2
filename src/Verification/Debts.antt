-- ===== src/Verification/Debts.antt =====
-- A decision that is rewarded owes no review: the tables of ternary-reward.ts and of
-- cross-family-critique.ts agree.
use threadwork.Prelude.{
  ℕ, ◌≡◌, refl, Bool, true, false, ◌&&◌, Option, none, some, List, [], ◌∷◌, any, keep, length,
  if◌then◌else◌, or_else, ◌==◌, Bool-cases, inl, inr, ap, ◌∙◌, sym,
}
use threadwork.Verification.Critics.{concur}
use threadwork.Verification.Rewards.{
  CritiqueRow, VerificationDb, same_verdict, assign_ternary_reward, resolve_ternary_reward_signal,
  kept_rows, critiques_of, decision_row, mandatory_of, has_cross_family_critique,
  requires_cross_family_review,
}
use threadwork.Verification.Positive.{is_positive, is_agreed, rewarded_iff}

and_left : (a b : Bool) → (a && b) ≡ true → a ≡ true
and_left true b e = refl
and_left false b e = e

-- A row that passes among those kept passes both tests among all.
any-keep :
    (p q : CritiqueRow → Bool) (rows : List CritiqueRow)
    → any q (keep p rows) ≡ true
    → any p rows ≡ true
any-keep p q [] e = cc
any-keep p q (r ∷ rows) e = elim (Bool-cases (p r)) [
  | inl kept ↦ rw kept refl
  | inr left ↦ rw left (any-keep p q rows (rw left at e))
]

keep-any :
    (p q : CritiqueRow → Bool) (rows : List CritiqueRow)
    → any q (keep p rows) ≡ true
    → any (λ r. p r && q r) rows ≡ true
keep-any p q [] e = cc
keep-any p q (r ∷ rows) e = elim (Bool-cases (p r)) [
  | inr left ↦ rw left (keep-any p q rows (rw left at e))
  | inl kept ↦
      let rest : (if q r then true else any q (keep p rows)) ≡ true = rw kept at e in
      elim (Bool-cases (q r)) [
        | inl here ↦ rw (kept, here) refl
        | inr other ↦ rw (kept, other) (keep-any p q rows (rw other at rest))
      ]
]

agreed-critique :
    (rows : List CritiqueRow)
    → is_agreed rows ≡ true
    → any (λ (c : CritiqueRow). c.is_cross_family) rows ≡ true
unfolding is_agreed
agreed-critique rows e =
    any-keep (λ (c : CritiqueRow). c.is_cross_family)
      (λ (c : CritiqueRow). same_verdict c.verdict concur) rows (and_left _ _ (and_left _ _ e))

or_else-kept_rows :
    (p : CritiqueRow → Bool) (o : Option (List CritiqueRow))
    → or_else (kept_rows p o) [] ≡ keep p (or_else o [])
or_else-kept_rows p none = refl
or_else-kept_rows p (some rows) = refl

agreed-has :
    (decision_id : ℕ) (db : VerificationDb)
    → is_agreed (or_else (critiques_of decision_id db) []) ≡ true
    → any
        (λ (c : CritiqueRow). (c.decision_id == decision_id) && c.is_cross_family)
        (or_else db.critiques [])
      ≡ true
unfolding critiques_of
agreed-has decision_id db e =
    let own = λ (c : CritiqueRow). c.decision_id == decision_id in
    keep-any own (λ (c : CritiqueRow). c.is_cross_family) (or_else db.critiques [])
      (ap (any (λ (c : CritiqueRow). c.is_cross_family)) (sym (or_else-kept_rows own db.critiques))
        ∙ agreed-critique _ e)

owes_nothing :
    (decision_id : ℕ) (o : Option (ℕ × Option ℕ)) (db : VerificationDb)
    → decision_row decision_id db ≡ o
    → any
        (λ (c : CritiqueRow). (c.decision_id == decision_id) && c.is_cross_family)
        (or_else db.critiques [])
      ≡ true
    → requires_cross_family_review decision_id db ≡ false
unfolding requires_cross_family_review has_cross_family_critique
owes_nothing decision_id none db row has = rw row refl
owes_nothing decision_id (some d) db row has =
    rw (row, has)
      (elim (Bool-cases (length (mandatory_of (some d) db) == 0)) [
        | inl no_failure ↦ rw no_failure refl
        | inr failures ↦ rw failures refl
      ])

-- A decision that is rewarded owes no review: whatever the failures of its task are, and whether the
-- tables can be read or not, a positive reward for a decision says that no cross-family review of it is
-- required any more.
pub rewarded_owes_nothing :
    (db : VerificationDb) (decision_id : ℕ) (task_id : Option ℕ)
    → is_positive (assign_ternary_reward (resolve_ternary_reward_signal db decision_id task_id))
      ≡ true
    → requires_cross_family_review decision_id db ≡ false
rewarded_owes_nothing db decision_id task_id e =
    owes_nothing decision_id (decision_row decision_id db) db refl
      (agreed-has decision_id db (and_left _ _ (sym (rewarded_iff db decision_id task_id) ∙ e)))
