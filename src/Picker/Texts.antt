-- ===== src/Picker/Texts.antt =====
-- split, join, includes and trim of JavaScript texts, as parked-picker-classifier.ts uses them.
use Prim.Native.Char.{Char, code}
use Prim.Native.String.{String, ◌++◌ as text_append}
use mathlib.Core.Bool.{Bool, ◌&&◌, ◌||◌}
use mathlib.Core.List.{List, [], ◌∷◌}
use mathlib.Core.Path.{◌≡◌, refl}
use text.Mathlib.Text.{find?, ◌==◌ as str_eq}
use threadwork.Prelude.{ℕ, ◌==◌, leb, if◌then◌else◌, is_some}

abbrev pub includes : String → String → Bool
includes text part = is_some (find? text part)

-- A character before the first line.
abbrev onto_first : Char → List String → List String
onto_first c [] = (String.◌∷◌ c String.[]) ∷ []
onto_first c (line ∷ later) = (String.◌∷◌ c line) ∷ later

-- split('\n')
abbrev pub split_lines : String → List String
split_lines String.[] = "" ∷ []
split_lines (String.◌∷◌ c s) =
    let rest = split_lines s in if code c == 10 then "" ∷ rest else onto_first c rest

abbrev join_onto : String → String → List String → String
join_onto sep text [] = text
join_onto sep text (line ∷ later) = text_append text (text_append sep (join_onto sep line later))

abbrev pub join : String → List String → String
join sep [] = ""
join sep (line ∷ later) = join_onto sep line later

-- The white space and the line terminators of ECMAScript.
abbrev is_white : ℕ → Bool
is_white n =
    (leb 9 n && leb n 13)
    || (n == 32)
    || (n == 160)
    || (n == 5760)
    || (leb 8192 n && leb n 8202)
    || (n == 8232)
    || (n == 8233)
    || (n == 8239)
    || (n == 8287)
    || (n == 12288)
    || (n == 65279)

abbrev trim_start : String → String
trim_start String.[] = ""
trim_start (String.◌∷◌ c s) =
    let rest = trim_start s in if is_white (code c) then rest else String.◌∷◌ c s

abbrev trim_end : String → String
trim_end String.[] = ""
trim_end (String.◌∷◌ c s) =
    let rest = trim_end s in if is_white (code c) && str_eq rest "" then "" else String.◌∷◌ c rest

abbrev pub trim : String → String
trim s = trim_end (trim_start s)

three_lines : split_lines "a\nb\n" ≡ "a" ∷ "b" ∷ "" ∷ []
three_lines = refl

joined_again : join "\n" ("a" ∷ "b" ∷ "" ∷ []) ≡ "a\nb\n"
joined_again = refl

trimmed : trim " \n a b\t" ≡ "a b"
trimmed = refl
