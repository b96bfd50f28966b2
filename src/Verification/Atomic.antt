-- ===== src/Verification/Atomic.antt =====
-- The transactions of verification/: persistTernaryReward of ternary-reward.ts on every outcome.
use mathlib.Core.Path.{subst}
use threadwork.Prelude.{
  ap, is_none, ◌&&◌, ℕ, suc, ◌≡◌, refl, Bool, true, false, Option, none, some, ◌∷◌, ◌⊎◌, inl, inr,
  Bool-cases, Option-cases, if◌then◌else◌, sym,
}
use threadwork.Connection.{Connection, Stepped, begin_immediate}
use threadwork.Blackboard.{is_feature_enabled}
use threadwork.Verification.Rewards.{
  VerificationDb, resolve_ternary_reward_signal, assign_ternary_reward,
}
use threadwork.Verification.Persisting.{
  Steps, Persisted, skipped, thrown, persisted, tried, caught, after_begin, insert_with_audit,
  insert_reward, audit_reward, persist_ternary_reward, assess_and_persist,
}

module _ {ℓ} {D : Type ℓ} where
  -- All is as it was, or ROLLBACK has failed and the transaction is still open on what it began with.
  abbrev IsThrown : Steps → Connection D → Persisted × Connection D → Type ℓ
  IsThrown s c out =
      ((out.0 ≡ thrown) × (out.1 ≡ c))
      ⊎ ((out.0 ≡ thrown) × (s.rolls_back ≡ false) × (out.1.before ≡ some c.contents))

  abbrev IsPersisted : ℕ → D → Persisted × Connection D → Type ℓ
  IsPersisted id after out =
      (out.0 ≡ persisted id) × (out.1.contents ≡ after) × (out.1.before ≡ none)

  caught-IsThrown :
      (s : Steps) (id : ℕ) (c : Connection D) (now : D)
      → c.before ≡ none
      → IsThrown s c (caught s id (false, record { contents = now; before = some c.contents }))
  caught-IsThrown s id c now free = elim (Bool-cases s.rolls_back) [
    | inl works ↦ rw works (inl (refl, λ i. record { contents = c.contents; before = sym free i }))
    | inr fails ↦ rw fails (inr (refl, refl, refl))
  ]

  -- The statements in turn, the first refused one ending them.
  tried_cases :
      (s : Steps) (id : ℕ) (insert audit : D → D) (c : Connection D)
      → c.before ≡ none
      → let out = caught s id (tried s insert audit (record c { before = some c.contents })) in
        IsThrown s c out ⊎ IsPersisted id (audit (insert c.contents)) out
  tried_cases s id insert audit c free = elim (Bool-cases s.inserts) [
    | inr refused ↦ rw refused (inl (caught-IsThrown s id c c.contents free))
    | inl inserted ↦ elim (Bool-cases s.audits) [
      | inr refused ↦ rw (inserted, refused) (inl (caught-IsThrown s id c (insert c.contents) free))
      | inl audited ↦ elim (Bool-cases s.commits) [
        | inr refused ↦
            rw (inserted, audited, refused)
              (inl (caught-IsThrown s id c (audit (insert c.contents)) free))
        | inl done ↦ rw (inserted, audited, done) (inr (refl, refl, refl))
      ]
    ]
  ]

  begin_lem :
      (accepted : Bool) (c : Connection D)
      → (begin_immediate accepted c ≡ (false, c))
        ⊎ ((c.before ≡ none)
            × (begin_immediate accepted c ≡ (true, record c { before = some c.contents })))
  begin_lem accepted c = elim (Bool-cases accepted) [
    | inr refused ↦ rw refused (inl refl)
    | inl taken ↦ elim (Option-cases c.before) [
      | inr (before, nested) ↦
          let test : (accepted && is_none c.before) ≡ false = rw (taken, nested) refl in
          inl
            (ap (λ b. if b then (true, record c { before = some c.contents }) else (false, c)) test)
      | inl free ↦
          let test : (accepted && is_none c.before) ≡ true = rw (taken, free) refl in
          inr (
            free,
            ap (λ b. if b then (true, record c { before = some c.contents }) else (false, c)) test,
          )
    ]
  ]

  insert_with_audit_cases :
      (s : Steps) (id : ℕ) (insert audit : D → D) (c : Connection D)
      → let out = insert_with_audit s id insert audit c in
        IsThrown s c out ⊎ IsPersisted id (audit (insert c.contents)) out
  insert_with_audit_cases s id insert audit c =
      let Claim = λ (st : Stepped D).
        IsThrown s c (after_begin s id insert audit st)
        ⊎ IsPersisted id (audit (insert c.contents)) (after_begin s id insert audit st) in
      elim (begin_lem s.begins c) [
        | inl refused ↦ subst Claim (sym refused) (inl (inl (refl, refl)))
        | inr (free, begun) ↦ subst Claim (sym begun) (tried_cases s id insert audit c free)
      ]

-- A reward is written whole or not at all. Whichever statements of the transaction are refused, and
-- whether one is open on the connection or not: either the connection is as it was, and the answer
-- is that rewards are switched off or an error; or the answer is an error, ROLLBACK has failed too,
-- and the transaction is still open on the tables as they were; or the answer is the id of one new
-- row with the reward that the signal of the decision is assigned, one line of the audit log is new,
-- the other tables are as they were, and all is committed.
pub assess_and_persist_lem :
    (s : Steps) (decision_id : ℕ) (task_id : Option ℕ) (c : Connection VerificationDb)
    → let out = assess_and_persist s decision_id task_id c in
      let db = c.contents in
      let signal = resolve_ternary_reward_signal db decision_id task_id in
      (((out.0 ≡ skipped) ⊎ (out.0 ≡ thrown)) × (out.1 ≡ c))
      ⊎ ((out.0 ≡ thrown) × (s.rolls_back ≡ false) × (out.1.before ≡ some db))
      ⊎ ((out.0 ≡ persisted db.next_reward_id)
          × (out.1.contents ≡ record db {
            rewards =
                record {
                  id = db.next_reward_id;
                  decision_id = decision_id;
                  task_id = task_id;
                  signal = signal;
                  reward = assign_ternary_reward signal;
                }
                ∷ db.rewards;
            next_reward_id = suc db.next_reward_id;
            audit_log = ("ternary_reward_assigned", task_id) ∷ db.audit_log;
          })
          × (out.1.before ≡ none))
unfolding assess_and_persist persist_ternary_reward
assess_and_persist_lem s decision_id task_id c =
    let signal = resolve_ternary_reward_signal c.contents decision_id task_id in
    elim (Bool-cases (is_feature_enabled "ternary_reward_enabled" c.contents.flags)) [
      | inr off ↦ rw off (inl (inl refl, refl))
      | inl on ↦
          rw on
            (elim (insert_with_audit_cases s c.contents.next_reward_id
              (insert_reward decision_id task_id signal (assign_ternary_reward signal))
              (audit_reward task_id) c) [
                | inl (inl (error, same)) ↦ inl (inr error, same)
                | inl (inr failed) ↦ inr (inl failed)
                | inr done ↦ inr (inr done)
              ])
    ]
