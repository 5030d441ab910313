-- ===== src/Parsers/Lines.antt =====
-- What the line parsers of engine/sbom call of Go's strings and bufio packages.
use rampart.Base.{
  ℕ, Bool, true, false, not, Option, none, some, List, [], ◌∷◌, Text, ◌==◌, Text-eq, ℕ-eq, length,
  if◌then◌else◌, ltb,
}
use mathlib.Core.Option
use mathlib.Core.List.{reverse}
use rampart.Base.Strings.{is_space, has_prefix, split}

-- The word that has been read, backwards, if there is one.
abbrev pub flush : Text → List Text → List Text
flush [] rest = rest
flush (c ∷ word) rest = reverse (c ∷ word) ∷ rest

unfoldable pub words : Text → Text → List Text
words [] word = flush word []
words (c ∷ s) word =
    let rest = words s (if is_space c then [] else c ∷ word) in
    if is_space c then flush word rest else rest

-- strings.Fields
unfoldable pub fields : Text → List Text
fields s = words s []

-- strings.CutPrefix; `none` for ok=false.
unfoldable pub cut_prefix : Text → Text → Option Text
cut_prefix s [] = some s
cut_prefix [] (p ∷ ps) = none
cut_prefix (c ∷ s) (p ∷ ps) = let rest = cut_prefix s ps in if c == p then rest else none

-- The text before a suffix; `none` where strings.HasSuffix is false.
unfoldable pub cut_suffix : Text → Text → Option Text
cut_suffix s suffix = Option.map reverse (cut_prefix (reverse s) (reverse suffix))

-- The text before the first occurrence of a separator, or all of it.
unfoldable pub before : Text → Text → Text
before sep [] = []
before sep (c ∷ s) = let rest = before sep s in if has_prefix (c ∷ s) sep then [] else c ∷ rest

abbrev cons_head : ℕ → Option (Text × Text) → Option (Text × Text)
cons_head c none = none
cons_head c (some (head, tail)) = some (c ∷ head, tail)

-- strings.SplitN with 2, at a separator that is not empty; `none` where it is not found.
unfoldable pub split_once : Text → Text → Option (Text × Text)
split_once sep [] = none
split_once sep (c ∷ s) =
    let rest = cons_head c (split_once sep s) in
    elim (cut_prefix (c ∷ s) sep) [ none ↦ rest | some tail ↦ some ([], tail) ]

-- The lines of a bufio.Scanner with a buffer of 1 MiB, and whether it stopped at a line that is too long.
abbrev pub Scanned : Type 0
Scanned = List Text × Bool

abbrev max_line : ℕ
max_line = 1048576

abbrev drop_cr : Text → Text
drop_cr line = elim (cut_suffix line (13 ∷ [])) [ none ↦ line | some rest ↦ rest ]

unfoldable pub scan_lines : List Text → Scanned
scan_lines [] = ([], false)
scan_lines (line ∷ lines) =
    let (rest, long) = scan_lines lines in
    if not (ltb (length line) max_line) then ([], true) else (drop_cr line ∷ rest, long)

-- A text that ends with a newline has no line after it.
unfoldable pub drop_last_empty : List Text → List Text
drop_last_empty [] = []
drop_last_empty (line ∷ []) = if line == [] then [] else line ∷ []
drop_last_empty (line ∷ next ∷ lines) = line ∷ drop_last_empty (next ∷ lines)

unfoldable pub scan : Text → Scanned
scan content = scan_lines (drop_last_empty (split 10 content))
