-- ===== src/Grouping/Dumps.antt =====
-- The rotation of the dump files (rotateDumpFiles of grouping/index.ts).
use Prim.Native.String.{compare as text_compare}
use text.Mathlib.Text.{is_lt}
use threadwork.Prelude.{
  ℕ, suc, ◌-◌, ◌≤◌, ◌≡◌, refl, String, true, false, List, [], ◌∷◌, arith, All, Bool-cases, inl, inr,
  length, drop, ltb, if◌then◌else◌, ap, ◌∙◌, length-drop,
}
use threadwork.Grouping.{insert_sorted, sort, rotate_dump_files}

-- No name of the list comes before the name.
abbrev pub IsFirst : String → List String → Type 0
IsFirst name names = All (λ other. is_lt (text_compare other name) ≡ false) names

insert_sorted-IsFirst :
    (name x : String) (names : List String)
    → is_lt (text_compare x name) ≡ false
    → IsFirst name names
    → IsFirst name (insert_sorted x names)
unfolding insert_sorted
insert_sorted-IsFirst name x [] of_x h = (of_x, tt)
insert_sorted-IsFirst name x (y ∷ later) of_x (of_y, h) =
    elim (Bool-cases (is_lt (text_compare y x))) [
      | inl e ↦ rw e (of_y, insert_sorted-IsFirst name x later of_x h)
      | inr e ↦ rw e (of_x, (of_y, h))
    ]

sort-IsFirst :
    (name : String) (names : List String) → IsFirst name names → IsFirst name (sort names)
unfolding sort
sort-IsFirst name [] h = tt
sort-IsFirst name (x ∷ later) (of_x, h) =
    insert_sorted-IsFirst name x (sort later) of_x (sort-IsFirst name later h)

insert_first :
    (name : String) (names : List String)
    → IsFirst name names
    → insert_sorted name names ≡ name ∷ names
unfolding insert_sorted
insert_first name [] h = refl
insert_first name (x ∷ later) (of_x, h) = rw of_x refl

length-insert_sorted :
    (name : String) (names : List String) → length (insert_sorted name names) ≡ suc (length names)
unfolding insert_sorted
length-insert_sorted name [] = refl
length-insert_sorted name (x ∷ later) = elim (Bool-cases (is_lt (text_compare x name))) [
  | inl e ↦ rw e (ap suc (length-insert_sorted name later))
  | inr e ↦ rw e refl
]

length-sort : (names : List String) → length (sort names) ≡ length names
unfolding sort
length-sort [] = refl
length-sort (x ∷ later) = length-insert_sorted x (sort later) ∙ ap suc (length-sort later)

pub length-rotate_dump_files :
    (max_dump_files : ℕ) (names : List String)
    → length (rotate_dump_files max_dump_files names) ≤ max_dump_files
unfolding rotate_dump_files
length-rotate_dump_files n names = elim (Bool-cases (ltb n (length (sort names)))) [
  | inl over ↦
      rw over
        (let cut = length-drop (length (sort names) - n) (sort names) in ground (arith, over, cut))
  | inr fits ↦ rw fits (ground (arith, fits))
]

drop_one :
    (n : ℕ) (x : String) (xs : List String)
    → (if ltb n (suc n) then drop (suc n - n) (x ∷ xs) else x ∷ xs) ≡ xs
drop_one n x xs =
    let over : ltb n (suc n) ≡ true = ground arith in
    let one : suc n - n ≡ 1 = omega arith in rw (over, one) refl

-- A dump file can be deleted as soon as it is written: where the directory is full and no name in it
-- comes before the new one, what the rotation leaves is the old files, sorted, and the new one is gone.
-- A name begins with the hash of the group, so that the order of names is not that of times.
pub new_dump_lost :
    (max_dump_files : ℕ) (name : String) (names : List String)
    → length names ≡ max_dump_files
    → IsFirst name names
    → rotate_dump_files max_dump_files (name ∷ names) ≡ sort names
unfolding rotate_dump_files sort
new_dump_lost n name names full first =
    let files = insert_first name (sort names) (sort-IsFirst name names first) in
    let long : length (sort names) ≡ n = length-sort names ∙ full in
    rw (files, long) (drop_one n name (sort names))
