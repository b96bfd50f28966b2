-- ===== src/Restart/Count.antt =====
-- RestartTracker counts the starts of a service exactly: the answer of onStartup (restart-cap/tracker.ts)
-- against the whole history of the starts.
use mathlib.Core.Path.{subst}
use threadwork.Prelude.{
  ℕ, ◌+◌, ◌-◌, ◌≤◌, ◌≡◌, refl, Bool, true, false, List, [], ◌∷◌, ◌++◌, ltb, leb, length, keep, All,
  Bool-cases, inl, inr, ◌≤◌, arith, ap, ◌∙◌, length-append, All-append,
}
use threadwork.Prelude.Store.{missing, saved}
use threadwork.Restart.{
  RestartTracker, TrackerData, load_tracker, default_data, filter_window, on_startup, in_window,
  check_cap,
}

abbrev is_future : ℕ → ℕ → Bool
is_future now ts = ltb now ts

-- The loop of filterWindow is two filters: the timestamps that are not in the future and not older than
-- the window, and those in the future, both in their order.
pub filter_window-keep :
    (max_t_sec now : ℕ) (stamps : List ℕ)
    → filter_window max_t_sec now stamps
      ≡ (keep (in_window max_t_sec now) stamps, keep (λ ts. ltb now ts) stamps)
unfolding filter_window
filter_window-keep t now [] = refl
filter_window-keep t now (x ∷ xs) = elim (Bool-cases (ltb now x)) [
  | inl late ↦
      let past : in_window t now x ≡ false = ground arith in
      rw (filter_window-keep t now xs, late, past) refl
  | inr due ↦
      let past : leb x now ≡ true = ground arith in
      elim (Bool-cases (leb (now - x) t)) [
        | inl recent ↦ rw (filter_window-keep t now xs, due, past, recent) refl
        | inr old ↦ rw (filter_window-keep t now xs, due, past, old) refl
      ]
]

-- Seen from a later time, the window holds what it held of what it held before.
keep-later :
    (t now later : ℕ) (hist : List ℕ)
    → now ≤ later
    → All (λ ts. ts ≤ now) hist
    → keep (in_window t later) (keep (in_window t now) hist) ≡ keep (in_window t later) hist
keep-later t now later [] le all = refl
keep-later t now later (x ∷ xs) le (old, all) = ground (arith, keep-later t now later xs le all)

All-≤ :
    (now later : ℕ) (hist : List ℕ)
    → now ≤ later
    → All (λ ts. ts ≤ now) hist
    → All (λ ts. ts ≤ later) hist
All-≤ now later [] le all = tt
All-≤ now later (x ∷ xs) le (old, all) = (omega (arith, le, old), All-≤ now later xs le all)

keep-append : (p : ℕ → Bool) (xs ys : List ℕ) → keep p (xs ++ ys) ≡ keep p xs ++ keep p ys
keep-append p [] ys = refl
keep-append p (x ∷ xs) ys = elim (Bool-cases (p x)) [
  | inl e ↦ rw e (ap (◌∷◌ x) (keep-append p xs ys))
  | inr e ↦ rw e (keep-append p xs ys)
]

-- A tracker with the limits r and t, and a history of starts up to a time: its file holds the starts
-- that are in the window at that time.
pub record Tracks (r t : ℕ) (hist : List ℕ) (now : ℕ) (tracker : RestartTracker) : Type 0 where
  pub stamps :
      (n : ℕ) → (load_tracker n tracker).restart_timestamps_unix ≡ keep (in_window t now) hist
  pub max_r_same : (n : ℕ) → (load_tracker n tracker).max_r ≡ r
  pub max_t_same : (n : ℕ) → (load_tracker n tracker).max_t_sec ≡ t
  pub until_now : All (λ ts. ts ≤ now) hist

-- The starts of a service one after another; each is a process of its own that reads the file.
unfoldable pub startups : List ℕ → RestartTracker → RestartTracker
unfolding on_startup
startups [] tracker = tracker
startups (now ∷ later) tracker = startups later (on_startup now tracker).1

-- Times that do not fall below the one before.
abbrev pub IsAscendingFrom : ℕ → List ℕ → Type 0
IsAscendingFrom t [] = Unit
IsAscendingFrom t (x ∷ xs) = (t ≤ x) × IsAscendingFrom x xs

in_window-now : (t now : ℕ) → in_window t now now ≡ true
in_window-now t now = ground arith

-- What a start writes: the starts of the window, itself included.
stamps-later :
    (r t now later : ℕ) (hist : List ℕ) (tracker : RestartTracker)
    → Tracks r t hist now tracker
    → now ≤ later
    → (filter_window
          (load_tracker later tracker).max_t_sec
          later
          (load_tracker later tracker).restart_timestamps_unix).0
        ++ (later ∷ [])
      ≡ keep (in_window t later) (hist ++ (later ∷ []))
stamps-later r t now later hist tracker h le =
    rw
      (
        h.max_t_same later,
        h.stamps later,
        filter_window-keep t later (keep (in_window t now) hist),
        keep-later t now later hist le h.until_now,
        keep-append (in_window t later) hist (later ∷ []),
        in_window-now t later,
      )
      refl

on_startup-Tracks :
    (r t now later : ℕ) (hist : List ℕ) (tracker : RestartTracker)
    → Tracks r t hist now tracker
    → now ≤ later
    → Tracks r t (hist ++ (later ∷ [])) later (on_startup later tracker).1
on_startup-Tracks r t now later hist tracker h le = record {
  stamps = λ n. unfold load_tracker on_startup in stamps-later r t now later hist tracker h le;
  max_r_same = λ n. unfold load_tracker on_startup in h.max_r_same later;
  max_t_same = λ n. unfold load_tracker on_startup in h.max_t_same later;
  until_now =
      All-append (λ ts. ts ≤ later) hist (later ∷ []) (All-≤ now later hist le h.until_now)
        (omega arith, tt);
}

on_startup-capped :
    (r t now later : ℕ) (hist : List ℕ) (tracker : RestartTracker)
    → Tracks r t hist now tracker
    → now ≤ later
    → (on_startup later tracker).0.capped
      ≡ ltb r (length (keep (in_window t later) (hist ++ (later ∷ []))))
unfolding on_startup
on_startup-capped r t now later hist tracker h le =
    ap (λ l. ltb (load_tracker later tracker).max_r (length l))
      (stamps-later r t now later hist tracker h le)
    ∙ ap (λ m. ltb m (length (keep (in_window t later) (hist ++ (later ∷ [])))))
        (h.max_r_same later)

-- The time of the last start.
abbrev pub last_of : ℕ → List ℕ → ℕ
last_of t [] = t
last_of t (x ∷ xs) = last_of x xs

++-nil : (xs : List ℕ) → xs ++ [] ≡ xs
++-nil [] = refl
++-nil (x ∷ xs) = ap (◌∷◌ x) (++-nil xs)

++-assoc_one : (hist : List ℕ) (x : ℕ) (xs : List ℕ) → (hist ++ (x ∷ [])) ++ xs ≡ hist ++ (x ∷ xs)
++-assoc_one [] x xs = refl
++-assoc_one (h ∷ hist) x xs = ap (◌∷◌ h) (++-assoc_one hist x xs)

startups-Tracks :
    (r t now : ℕ) (hist stamps : List ℕ) (tracker : RestartTracker)
    → Tracks r t hist now tracker
    → IsAscendingFrom now stamps
    → Tracks r t (hist ++ stamps) (last_of now stamps) (startups stamps tracker)
unfolding startups
startups-Tracks r t now hist [] tracker h up = rw (++-nil hist) h
startups-Tracks r t now hist (x ∷ xs) tracker h (le, up) =
    subst (λ l. Tracks r t l (last_of x xs) (startups xs (on_startup x tracker).1))
      (++-assoc_one hist x xs)
      (startups-Tracks r t x (hist ++ (x ∷ [])) xs (on_startup x tracker).1
        (on_startup-Tracks r t now x hist tracker h le) up)

-- A service is capped exactly by the starts that it made. For a service that has no tracker file, after
-- starts at times that do not fall, capped or not, a start at a time that is not before the last is
-- capped exactly if more than max_r starts, itself included, are at most max_t_sec old.
pub startup_exact :
    (now later : ℕ) (stamps : List ℕ) (tracker : RestartTracker)
    → tracker.file ≡ missing
    → IsAscendingFrom now stamps
    → last_of now stamps ≤ later
    → (on_startup later (startups stamps tracker)).0.capped
      ≡ ltb tracker.max_r
          (length (keep (in_window tracker.max_t_sec later) (stamps ++ (later ∷ []))))
unfolding load_tracker default_data
startup_exact now later stamps tracker e up le =
    let fresh : Tracks tracker.max_r tracker.max_t_sec [] now tracker = record {
      stamps = λ n. rw e refl;
      max_r_same = λ n. rw e refl;
      max_t_same = λ n. rw e refl;
      until_now = tt;
    } in
    on_startup-capped tracker.max_r tracker.max_t_sec (last_of now stamps) later stamps
      (startups stamps tracker)
      (startups-Tracks tracker.max_r tracker.max_t_sec now [] stamps tracker fresh up) le

-- checkCap, which only looks, and onStartup agree: a start is capped exactly if the count that checkCap
-- gives at that time, and one more for the start, is above the limit.
pub check_cap_lem :
    (now : ℕ) (tracker : RestartTracker) (d : TrackerData)
    → tracker.file ≡ saved d
    → d.max_t_sec ≡ tracker.max_t_sec
    → (on_startup now tracker).0.capped ≡ ltb d.max_r ((check_cap tracker d now).filtered_count + 1)
unfolding on_startup check_cap load_tracker
check_cap_lem now tracker d e same =
    rw (e, same)
      (ap (ltb d.max_r) (
        length-append (filter_window tracker.max_t_sec now d.restart_timestamps_unix).0 (now ∷ [])))
