-- ===== src/Decisions/Sweep.antt =====
-- What the sweep over the open decisions does (expireStaleDecisions of decision.ts).
use threadwork.Prelude.{
  ℕ, ◌<◌, ◌≡◌, refl, String, Bool, true, false, ◌&&◌, none, some, List, [], ◌∷◌, arith, ◌==◌, any,
  keep, find-eq-some, if◌then◌else◌, Bool-cases, is_none, inl, inr, ap,
}
use threadwork.Prelude.Table.{update}
use threadwork.Integrity.{Host}
use threadwork.Decisions.{
  Decision, DecisionDb, expired, is_open_status, decision_of, update_decision,
}
use threadwork.Decisions.Endings.{
  insert_ordered, order_by, expire_decision, write_expired, remember, ended_expired,
}
use threadwork.Decisions.Listing.{
  expire_each, expire_stale_decisions, get_open_decisions, is_filtered, is_stale,
}
use threadwork.Decisions.Final.{Stands, linked, act-Stands, expire-Updates, sweep-Stands}

any-insert_ordered {ℓ} :
    {A : Type ℓ} (before : A → A → Bool) (p : A → Bool) (x : A) (ys : List A)
    → any p (x ∷ ys) ≡ true
    → any p (insert_ordered before x ys) ≡ true
unfolding insert_ordered
any-insert_ordered before p x [] e = e
any-insert_ordered before p x (y ∷ later) e = elim (Bool-cases (before y x)) [
  | inr first ↦ rw first e
  | inl behind ↦ rw behind (elim (Bool-cases (p y)) [
    | inl here ↦ rw here refl
    | inr other ↦
        let rest : any p (x ∷ later) ≡ true = rw other at e in
        rw other (any-insert_ordered before p x later rest)
  ])
]

any-order_by {ℓ} :
    {A : Type ℓ} (before : A → A → Bool) (p : A → Bool) (xs : List A)
    → any p xs ≡ true
    → any p (order_by before xs) ≡ true
unfolding order_by
any-order_by before p [] e = e
any-order_by before p (x ∷ older) e =
    any-insert_ordered before p x (order_by before older) (elim (Bool-cases (p x)) [
      | inl here ↦ rw here refl
      | inr other ↦ rw other (any-order_by before p older (rw other at e))
    ])

abbrev is_due : ℕ → String → Decision → Bool
is_due id now_text x = (x.id == id) && is_stale now_text x

-- A stale open decision is among those that the sweep reads.
due_read :
    (id : ℕ) (now_text : String) (d : Decision) (ds : List Decision)
    → decision_of id ds ≡ some d
    → is_open_status d.status ≡ true
    → is_stale now_text d ≡ true
    → any
        (is_due id now_text)
        (keep (λ (x : Decision). is_open_status x.status && is_filtered none none x) ds)
      ≡ true
unfolding decision_of
due_read id now_text d [] found live stale = cc
due_read id now_text d (x ∷ later) found live stale =
    elim (find-eq-some (λ (y : Decision). y.id == id) x later found) [
      | inl (own, same) ↦
          let live_x : is_open_status x.status ≡ true = rw same live in
          let stale_x : is_stale now_text x ≡ true = rw same stale in
          rw live_x (rw (own, stale_x) refl)
      | inr (other, found_later) ↦
          let rest = due_read id now_text d later found_later live stale in
          elim (Bool-cases (is_open_status x.status)) [
            | inl live_x ↦ rw live_x (rw other rest)
            | inr ended ↦ rw ended rest
          ]
    ]

own_update :
    (id : ℕ) (f : Decision → Decision) (ds : List Decision) (d : Decision)
    → ((x : Decision) → (f x).id ≡ x.id)
    → decision_of id ds ≡ some d
    → decision_of id (update_decision id f ds) ≡ some (f d)
unfolding decision_of update_decision update
own_update id f [] d keeps found = cc
own_update id f (x ∷ later) d keeps found =
    elim (find-eq-some (λ (y : Decision). y.id == id) x later found) [
      | inl (own, same) ↦
          let own_after : ((f x).id == id) ≡ true = rw (keeps x) own in
          rw (own, own_after) (ap (λ y. some (f y)) same)
      | inr (other, found_later) ↦ rw (other, other) (own_update id f later d keeps found_later)
    ]

-- The decision has expired.
pub record Expires (id : ℕ) (d : Decision) (db : DecisionDb) : Type 0 where
  pub stands : Stands id d db
  pub status : d.status ≡ expired

expire_own :
    (h : Host) (now id : ℕ) (d : Decision) (db : DecisionDb)
    → Stands id d db
    → is_open_status d.status ≡ true
    → Stands id (linked (ended_expired now) db d) (expire_decision h now id db).1
unfolding expire_decision write_expired remember
expire_own h now id d db s live = rw s.found (
    rw live (record {
      below = s.below;
      found = own_update id (linked (ended_expired now) db) db.decisions d (λ x. refl) s.found;
    }))

-- A turn of the sweep, but for the count.
sweep_turn :
    (h : Host) (now : ℕ) (now_text : String) (x : Decision) (later : List Decision)
    (db : DecisionDb)
    → (expire_each h now now_text (x ∷ later) db).1
      ≡ (expire_each h now now_text later
          (if is_stale now_text x then (expire_decision h now x.id db).1 else db)).1
unfolding expire_each
sweep_turn h now now_text x later db =
    elim (Bool-cases (is_stale now_text x && is_none (expire_decision h now x.id db).0)) [
      | inl counted ↦ rw counted refl
      | inr skipped ↦ rw skipped refl
    ]

-- A stale decision of another id is expired, or not, and the decision stands.
expire_other :
    (h : Host) (now id : ℕ) (d x : Decision) (db : DecisionDb)
    → (x.id == id) ≡ false
    → Stands id d db
    → Stands id d (expire_decision h now x.id db).1
unfolding expire_decision
expire_other h now id d x db apart s =
    act-Stands is_open_status (write_expired h now x.id) id x.id d (decision_of x.id db.decisions)
      db (expire-Updates h now x.id) apart s

sweep_due :
    (h : Host) (now : ℕ) (now_text : String) (id : ℕ) (d : Decision) (ds : List Decision)
    (db : DecisionDb)
    → Stands id d db
    → is_open_status d.status ≡ true
    → any (is_due id now_text) ds ≡ true
    → (u : Decision) × Expires id u (expire_each h now now_text ds db).1
sweep_due h now now_text id d [] db s live due = cc
sweep_due h now now_text id d (x ∷ later) db s live due =
    rw (sweep_turn h now now_text x later db) (elim (Bool-cases (is_stale now_text x)) [
      | inr fresh ↦ rw fresh (
          sweep_due h now now_text id d later db s live (elim (Bool-cases (x.id == id)) [
            | inl own ↦ (rw (own, fresh) at due)
            | inr other ↦ (rw other at due)
          ]))
      | inl stale ↦ rw stale (elim (Bool-cases (x.id == id)) [
        | inl own ↦
            let same : x.id ≡ id = ground (arith, own) in
            let u = linked (ended_expired now) db d in
            let here : Stands id u (expire_decision h now x.id db).1 =
              rw same (expire_own h now id d db s live) in
            (
              u,
              record {
                stands =
                    sweep-Stands h now now_text id u later (expire_decision h now x.id db).1 refl
                      here;
                status = refl;
              },
            )
        | inr other ↦
            sweep_due h now now_text id d later (expire_decision h now x.id db).1
              (expire_other h now id d x db other s) live (rw other at due)
      ])
    ])

-- No stale decision survives a sweep: an open decision whose expires_at is not empty and is before the
-- time, with an id below the next one, has expired after the sweep.
pub sweep-expires :
    (h : Host) (now : ℕ) (now_text : String) (id : ℕ) (d : Decision) (db : DecisionDb)
    → id < db.next_decision_id
    → decision_of id db.decisions ≡ some d
    → is_open_status d.status ≡ true
    → is_stale now_text d ≡ true
    → (u : Decision) × (decision_of id (expire_stale_decisions h now now_text db).1.decisions
        ≡ some u)
      × (u.status ≡ expired)
unfolding expire_stale_decisions get_open_decisions
sweep-expires h now now_text id d db below found live stale =
    let due =
      any-order_by _ (is_due id now_text) _
        (due_read id now_text d db.decisions found live stale) in
    let (u, e) =
      sweep_due h now now_text id d (get_open_decisions none none db) db
        (record { below = below; found = found }) live due in
    (u, e.stands.found, e.status)
