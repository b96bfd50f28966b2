-- ===== src/Loops/Trigger.antt =====
-- When the loop detector sees a loop (checkLoopTrigger of loop-detector/index.ts).
use mathlib.Core.Path.{subst}
use threadwork.Prelude.{
  ℕ, zero, suc, ◌+◌, ◌≤◌, ◌≡◌, ◌↔◌, refl, String, true, false, none, some, List, [], ◌∷◌, leb,
  if◌then◌else◌, or_else, arith, inl, inr, Bool-cases, Option-cases, length, ap, ◌∙◌, sym, str_eq,
  eq_iff, any,
}
use threadwork.Prelude.Store.{Store, lookup, insert, lookup-insert}
use threadwork.Loops.{HistoryEntry, consecutive_run, tally, has_majority}

-- The first n entries have the hash h.
abbrev pub IsRun : ℕ → String → List HistoryEntry → Type 0
IsRun zero h l = Unit
IsRun (suc n) h [] = ⊥
IsRun (suc n) h (e ∷ l) = (e.hash ≡ some h) × IsRun n h l

run_step :
    (n count : ℕ) (r h : String) (e : HistoryEntry) (older : List HistoryEntry)
    → e.hash ≡ some h
    → consecutive_run n count (some r) (e ∷ older) ≡ (
        if str_eq h r
        then (if leb n (suc count) then some r else consecutive_run n (suc count) (some r) older)
        else none)
unfolding consecutive_run
run_step n count r h e older f = rw f refl

run_first :
    (n : ℕ) (h : String) (e : HistoryEntry) (older : List HistoryEntry)
    → e.hash ≡ some h
    → consecutive_run n 0 none (e ∷ older)
      ≡ (if leb n 1 then some h else consecutive_run n 1 (some h) older)
unfolding consecutive_run
run_first n h e older f = rw f refl

run_complete :
    (m n count : ℕ) (r : String) (l : List HistoryEntry)
    → n ≡ count + suc m
    → IsRun (suc m) r l
    → consecutive_run n count (some r) l ≡ some r
run_complete m n count r [] e run = absurd run
run_complete zero n count r (x ∷ l) e (f, run) =
    run_step n count r r x l f ∙ ground (arith, e, eq_iff r r)
run_complete (suc m) n count r (x ∷ l) e (f, run) =
    run_step n count r r x l f
    ∙ (let rest = run_complete m n (suc count) r l (omega (arith, e)) run in
        ground (arith, e, eq_iff r r, rest))

-- A run that goes on: it is full, or the entries below complete it.
IsRun-hit :
    (m n count : ℕ) (r h : String) (x : HistoryEntry) (l : List HistoryEntry)
    → n ≡ count + suc m
    → x.hash ≡ some r
    → ((k : ℕ)
        → n ≡ suc count + suc k
        → consecutive_run n (suc count) (some r) l ≡ some h
        → (r ≡ h) × IsRun (suc k) r l)
    → (if leb n (suc count) then some r else consecutive_run n (suc count) (some r) l) ≡ some h
    → (r ≡ h) × IsRun (suc m) r (x ∷ l)
IsRun-hit zero n count r h x l e f deeper found =
    let full : leb n (suc count) ≡ true = ground (arith, e) in
    let same : some r ≡ some h = rw full at found in (cc, (f, tt))
IsRun-hit (suc m) n count r h x l e f deeper found =
    let short : leb n (suc count) ≡ false = ground (arith, e) in
    let (same, run) = deeper m (omega (arith, e)) (rw short at found) in (same, (f, run))

IsRun-sound :
    (m n count : ℕ) (r h : String) (l : List HistoryEntry)
    → n ≡ count + suc m
    → consecutive_run n count (some r) l ≡ some h
    → (r ≡ h) × IsRun (suc m) r l
unfolding consecutive_run
IsRun-sound m n count r h [] e found = cc
IsRun-sound m n count r h (x ∷ l) e found = elim (Option-cases x.hash) [
  | inl gap ↦ let bad : none ≡ some h = rw (consecutive_run, gap) at found in cc
  | inr (g, f) ↦
      let found' = sym (run_step n count r g x l f) ∙ found in
      elim (Bool-cases (str_eq g r)) [
        | inr miss ↦ let bad : none ≡ some h = rw miss at found' in cc
        | inl hit ↦
            IsRun-hit m n count r h x l e (f ∙ ap some ((eq_iff g r).0 hit))
              (λ k e' below. IsRun-sound k n (suc count) r h l e' below) (rw hit at found')
      ]
]

newest_sound :
    (m : ℕ) (g h : String) (l : List HistoryEntry)
    → (if leb (suc m) 1 then some g else consecutive_run (suc m) 1 (some g) l) ≡ some h
    → (g ≡ h) × IsRun m h l
newest_sound zero g h l found = (cc, tt)
newest_sound (suc m) g h l found =
    let short : leb (suc (suc m)) 1 ≡ false = ground arith in
    let (same, run) = IsRun-sound m (suc (suc m)) 1 g h l (omega arith) (rw short at found) in
    (same, subst (λ k. IsRun (suc m) k l) same run)

newest_complete :
    (m : ℕ) (h : String) (l : List HistoryEntry)
    → IsRun m h l
    → (if leb (suc m) 1 then some h else consecutive_run (suc m) 1 (some h) l) ≡ some h
newest_complete zero h l run = refl
newest_complete (suc m) h l run =
    let below = run_complete m (suc (suc m)) 1 h l (omega arith) run in ground (arith, below)

-- From its newest entry on, the loop over a history finds a run of n entries with one hash, for n
-- above 0, exactly if the n newest entries have that hash; a gap or another hash ends the run.
pub consecutive_run_iff :
    (m : ℕ) (h : String) (newest_first : List HistoryEntry)
    → (consecutive_run (suc m) 0 none newest_first ≡ some h) ↔ IsRun (suc m) h newest_first
unfolding consecutive_run
consecutive_run_iff m h [] = (λ e. cc, λ e. absurd e)
consecutive_run_iff m h (x ∷ l) = (
  λ found. elim (Option-cases x.hash) [
    | inl gap ↦ let bad : none ≡ some h = rw (consecutive_run, gap) at found in cc
    | inr (g, f) ↦
        let (same, run) = newest_sound m g h l (sym (run_first (suc m) g x l f) ∙ found) in
        (f ∙ ap some same, run)
  ],
  λ (f, run). run_first (suc m) h x l f ∙ newest_complete m h l run,
)

-- How often a hash stands in a list.
abbrev pub count_of : String → List String → ℕ
count_of h [] = 0
count_of h (x ∷ xs) = count_of h xs + (if str_eq x h then 1 else 0)

abbrev counted : String → Store ℕ → ℕ
counted h c = or_else (lookup h c) 0

counted-nil : (h : String) → counted h [] ≡ 0
unfolding lookup
counted-nil h = refl

counted-insert :
    (k h : String) (n : ℕ) (c : Store ℕ)
    → counted h (insert k n c) ≡ (if str_eq k h then n else counted h c)
counted-insert k h n c = rw (lookup-insert k h n c) (ground arith)

counted-tally :
    (h : String) (hs : List String) (c : Store ℕ)
    → counted h (tally c hs) ≡ counted h c + count_of h hs
unfolding tally
counted-tally h [] c = omega arith
counted-tally h (x ∷ xs) c = ground (
  arith,
  counted-tally h xs (insert x (counted x c + 1) c),
  counted-insert x h (counted x c + 1) c,
  eq_iff x h,
)

any-lookup :
    (h : String) (t n : ℕ) (c : Store ℕ)
    → lookup h c ≡ some n
    → t ≤ n
    → any (λ (e : String × ℕ). leb t e.1) c ≡ true
unfolding lookup
any-lookup h t n [] e le = cc
any-lookup h t n ((k, m) ∷ c) e le = elim (Bool-cases (str_eq k h)) [
  | inl hit ↦ let same : some m ≡ some n = rw (lookup, hit) at e in ground (arith, le)
  | inr miss ↦
      let rest : lookup h c ≡ some n = rw (lookup, miss) at e in
      ground (arith, any-lookup h t n c rest le)
]

count-le-length : (h : String) (hs : List String) → count_of h hs ≤ length hs
count-le-length h [] = omega arith
count-le-length h (x ∷ xs) = ground (arith, count-le-length h xs)

-- A hash that stands in the window as often as the threshold asks, wherever it stands, is a majority.
pub has_majority-count :
    (threshold : ℕ) (h : String) (hs : List String)
    → 1 ≤ threshold
    → threshold ≤ count_of h hs
    → has_majority threshold hs ≡ true
unfolding has_majority
has_majority-count threshold h hs pos le =
    let long = count-le-length h hs in
    let total : counted h (tally [] hs) ≡ count_of h hs =
      counted-tally h hs [] ∙ omega (arith, counted-nil h) in
    elim (Option-cases (lookup h (tally [] hs))) [
      | inl e ↦
          let zero_count : 0 ≡ count_of h hs = rw e at total in
          absurd (omega (arith, zero_count, pos, le))
      | inr (n, e) ↦
          let all : n ≡ count_of h hs = rw e at total in
          let found = any-lookup h threshold n (tally [] hs) e (omega (arith, all, le)) in
          rw found (ground (arith, le, long))
    ]
