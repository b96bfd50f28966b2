-- ===== src/Silences/Rotation.antt =====
-- The rotation of the audit log (maybeRotateAuditLog of silences/index.ts).
use threadwork.Prelude.{
  ℕ, zero, suc, ◌≤◌, ◌<◌, ◌⊎◌, ◌≡◌, refl, String, false, some, arith, Option-cases, inl, inr, ◌==◌,
  ◌∙◌, ltb, Bool-cases,
}
use threadwork.Silences.{LogFiles, shift, rotate, maybe_rotate_audit_log}

shift_above : (i n : ℕ) (files : LogFiles) → suc i < n → shift i files n ≡ files n
unfolding shift
shift_above i n files h = elim (Option-cases (files i)) [
  | inl e ↦ rw (shift, e) refl
  | inr (c, e) ↦ rw (shift, e) (ground (arith, h))
]

shift_below : (i n : ℕ) (files : LogFiles) → n < i → shift i files n ≡ files n
unfolding shift
shift_below i n files h = elim (Option-cases (files i)) [
  | inl e ↦ rw (shift, e) refl
  | inr (c, e) ↦ rw (shift, e) (ground (arith, h))
]

shift_here :
    (i : ℕ) (files : LogFiles) {c : String} → files i ≡ some c → shift i files (suc i) ≡ some c
unfolding shift
shift_here i files {c} e = rw (shift, e) (ground arith)

rotate_above : (g n : ℕ) (files : LogFiles) → g < n → rotate g files n ≡ files n
unfolding rotate
rotate_above zero n files h = refl
rotate_above (suc i) n files h =
    rotate_above i n (shift i files) (omega arith) ∙ shift_above i n files h

rotate_here :
    (g i : ℕ) (files : LogFiles) {c : String}
    → i < g
    → files i ≡ some c
    → rotate g files (suc i) ≡ some c
unfolding rotate
rotate_here zero i files h e = absurd (omega (arith, h))
rotate_here (suc j) i files {c} h e = elim (Bool-cases (ltb i j)) [
  | inl lt ↦
      let less : i < j = ground (arith, lt) in
      rotate_here j i (shift j files) less (shift_below j i files less ∙ e)
  | inr ge ↦
      let same : i ≡ j = ground (arith, ge, h) in
      rw same
        (rotate_above j (suc j) (shift j files) (omega arith) ∙ shift_here j files (rw same at e))
]

-- Where the audit log has reached its limit, the rotation moves every file one generation up, and
-- what it held is there: only the file of the last generation is lost, and what lies beyond it is not
-- touched.
pub rotated_lem :
    (size_of : String → ℕ) (max_bytes generations i : ℕ) (files : LogFiles) {log : String}
    {c : String}
    → files 0 ≡ some log
    → max_bytes ≤ size_of log
    → files i ≡ some c
    → ((i < generations)
        × (maybe_rotate_audit_log size_of max_bytes generations files (suc i) ≡ some c))
      ⊎ (i ≡ generations)
      ⊎ ((generations < i)
          × (maybe_rotate_audit_log size_of max_bytes generations files i ≡ some c))
unfolding maybe_rotate_audit_log
rotated_lem size_of max_bytes generations i files {log} {c} at_log full at_i =
    let over : ltb (size_of log) max_bytes ≡ false = ground (arith, full) in
    elim (Bool-cases (ltb i generations)) [
      | inl lt ↦
          let less : i < generations = ground (arith, lt) in
          inl (
            less,
            rw (maybe_rotate_audit_log, at_log, over) (rotate_here generations i files less at_i),
          )
      | inr ge ↦ elim (Bool-cases (i == generations)) [
        | inl eq ↦ inr (inl (ground (arith, eq)))
        | inr ne ↦
            let more : generations < i = ground (arith, ge, ne) in
            inr (
              inr (
                more,
                rw (maybe_rotate_audit_log, at_log, over)
                    (rotate_above generations i files more ∙ at_i),
              ))
      ]
    ]
