-- ===== src/Prelude/Paths.antt =====
-- strings.Split with a separator of one character, strings.Contains of one, and strings.Fields of
-- a text whose only white space is the blank.
use Prim.Native.Char.{Char, code}
use Prim.Native.String.{String, ◌++◌ as append}
use mathlib.Core.Path.{◌≡◌, refl, ap, ◌∙◌}
use mathlib.Core.Logic.{◌≢◌}
use text.Mathlib.TextEquality.{eq_iff}
use mathlib.Core.Bool.{Bool, true, false, ◌||◌}
use mathlib.Core.List.{List, [], ◌∷◌}
use text.Mathlib.TextLemmas.{append_assoc, nil-append, cons-append}
use native.Mathlib.Omega.{arith}
use oooi.Prelude.Tests.{◌==◌, ◌===◌, if◌then◌else◌}

unfoldable pub has_char : Char → String → Bool
has_char sep String.[] = false
has_char sep (String.◌∷◌ c s) = code c == code sep || has_char sep s

unfoldable pub on_first : Char → List String → List String
on_first c [] = []
on_first c (part ∷ parts) = String.◌∷◌ c part ∷ parts

unfoldable pub split : Char → String → List String
unfolding on_first
split sep String.[] = "" ∷ []
split sep (String.◌∷◌ c s) =
    let rest = split sep s in if code c == code sep then "" ∷ rest else on_first c rest

-- A text without the separator is one part.
pub split-whole : (sep : Char) (s : String) → has_char sep s ≡ false → split sep s ≡ s ∷ []
unfolding split has_char on_first
split-whole sep String.[] e = refl
split-whole sep (String.◌∷◌ c s) e = ground (arith, split-whole sep s)

-- The part before the first separator, and then the parts of the rest.
pub split-at :
    (sep : Char) (s t : String)
    → has_char sep s ≡ false
    → split sep (append s (String.◌∷◌ sep t)) ≡ s ∷ split sep t
unfolding split has_char on_first
split-at sep String.[] t e = ap (split sep) (nil-append (String.◌∷◌ sep t)) ∙ ground arith
split-at sep (String.◌∷◌ c s) t e =
    ap (split sep) (cons-append c s (String.◌∷◌ sep t)) ∙ ground (arith, split-at sep s t)

-- A text with a separator in it has one.
pub has_char-at : (sep : Char) (s t : String) → has_char sep (append s (String.◌∷◌ sep t)) ≡ true
unfolding has_char
has_char-at sep String.[] t = ap (has_char sep) (nil-append (String.◌∷◌ sep t)) ∙ ground arith
has_char-at sep (String.◌∷◌ c s) t =
    ap (has_char sep) (cons-append c s (String.◌∷◌ sep t)) ∙ ground (arith, has_char-at sep s t)

-- The parts that are not empty.
unfoldable pub not_empty : List String → List String
not_empty [] = []
not_empty (part ∷ parts) = let rest = not_empty parts in if part === "" then rest else part ∷ rest

unfoldable pub fields : String → List String
unfolding not_empty split
fields s = not_empty (split " " s)

pub has_char-append :
    (c : Char) (s t : String) → has_char c (append s t) ≡ has_char c s || has_char c t
unfolding has_char
has_char-append c String.[] t = ap (has_char c) (nil-append t)
has_char-append c (String.◌∷◌ d s) t =
    ap (has_char c) (cons-append d s t) ∙ ground (arith, has_char-append c s t)

-- A text without blanks and line ends, which strings.Fields takes as one field.
abbrev pub Word : String → Type 0
Word s = (s ≢ "") × (has_char " " s ≡ false) × (has_char "\n" s ≡ false)

pub fields-blank : (s : String) → fields (append " " s) ≡ fields s
unfolding fields not_empty split on_first
fields-blank s = ap fields (cons-append " " "" s ∙ ap (String.◌∷◌ " ") (nil-append s))

fields-Word : (s : String) → Word s → not_empty (s ∷ []) ≡ s ∷ []
unfolding not_empty
fields-Word s (full, blank, line) = ground (arith, eq_iff s "")

pub fields-two : (s t : String) → Word s → Word t → fields (append s (append " " t)) ≡ s ∷ t ∷ []
unfolding fields not_empty
fields-two s t (full, blank, line) (full', blank', line') =
    let joined : append s (append " " t) ≡ append s (String.◌∷◌ " " t) =
      ap (append s) (cons-append " " "" t ∙ ap (String.◌∷◌ " ") (nil-append t)) in
    rw (joined, split-at " " s t blank, split-whole " " t blank')
      (ground (arith, eq_iff s "", fields-Word t (full', blank', line')))

pub eight-blanks : (s : String) → fields (append "        " s) ≡ fields s
eight-blanks s =
    ap fields (append_assoc " " "       " s)
    ∙ fields-blank (append "       " s)
    ∙ ap fields (append_assoc " " "      " s)
    ∙ fields-blank (append "      " s)
    ∙ ap fields (append_assoc " " "     " s)
    ∙ fields-blank (append "     " s)
    ∙ ap fields (append_assoc " " "    " s)
    ∙ fields-blank (append "    " s)
    ∙ ap fields (append_assoc " " "   " s)
    ∙ fields-blank (append "   " s)
    ∙ ap fields (append_assoc " " "  " s)
    ∙ fields-blank (append "  " s)
    ∙ ap fields (append_assoc " " " " s)
    ∙ fields-blank (append " " s)
    ∙ fields-blank s

-- A word before a blank is the first field.
pub fields-first : (s t : String) → Word s → fields (append s (append " " t)) ≡ s ∷ fields t
unfolding fields not_empty split on_first
fields-first s t (full, blank, line) =
    let joined : append s (append " " t) ≡ append s (String.◌∷◌ " " t) =
      ap (append s) (cons-append " " "" t ∙ ap (String.◌∷◌ " ") (nil-append t)) in
    rw (joined, split-at " " s t blank) (ground (arith, eq_iff s ""))

pub fields-one : (s : String) → Word s → fields s ≡ s ∷ []
unfolding fields
fields-one s (full, blank, line) = rw (split-whole " " s blank) (fields-Word s (full, blank, line))

-- A line that ends is split off.
pub split-line :
    (line rest : String)
    → has_char "\n" line ≡ false
    → split "\n" (append line (append "\n" rest)) ≡ line ∷ split "\n" rest
split-line line rest plain =
    ap (λ t. split "\n" (append line t))
      (cons-append "\n" "" rest ∙ ap (String.◌∷◌ "\n") (nil-append rest))
    ∙ split-at "\n" line rest plain

-- The same for the first line of a text that has more.
pub split-first :
    (line more rest : String)
    → has_char "\n" line ≡ false
    → split "\n" (append (append line (append "\n" more)) rest)
      ≡ line ∷ split "\n" (append more rest)
split-first line more rest plain =
    ap (split "\n")
      (append_assoc line (append "\n" more) rest ∙ ap (append line) (append_assoc "\n" more rest))
    ∙ split-line line (append more rest) plain
