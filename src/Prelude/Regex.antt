-- ===== src/Prelude/Regex.antt =====
-- What the program uses of Python's `re`: a pattern that is a sequence of fixed texts, runs of white
-- space and named groups of one or more characters of a class, matched greedily from the left with
-- backtracking. `\w` is that of ASCII.
pub mod Steps
use Prim.Native.Char.{Char, code}
use Prim.Native.String.{String}
use mathlib.Core.Bool.{Bool, true, false, not, ◌&&◌, ◌||◌}
use mathlib.Core.List.{List, [], ◌∷◌}
use mathlib.Core.Option
use mathlib.Core.Path.{◌≡◌, refl}
use mathlib.Core.Option.{Option, none, some}
use code_workflow.Prelude.Tests.{leb, ◌==◌, if◌then◌else◌, coalesce, is_some}
use code_workflow.Prelude.Text.{is_space}
use code_workflow.Prelude.Decimal.{is_digit}
use code_workflow.Prelude.Split.{◌+++◌, drop_prefix, drop_prefix-append, is_empty}

pub data Piece : Type 0 where
  exactly : String → Piece
  -- \s* and \s+
  spaces some_spaces : Piece
  -- one or more characters of the class
  group : (Char → Bool) → Piece

abbrev pub white : Char → Bool
white c = is_space (code c)

-- [^\s]
abbrev pub solid : Char → Bool
solid c = not (is_space (code c))

-- \w
abbrev pub word : Char → Bool
word c =
    is_digit c
    || leb 65 (code c) && leb (code c) 90
    || leb 97 (code c) && leb (code c) 122
    || code c == 95

module _ {ℓ} {A : Type ℓ} where
  abbrev longer : Char → Option (String × A) → Option (String × A)
  longer c none = none
  longer c (some p) = some (String.◌∷◌ c p.0, p.1)

  abbrev taken_nothing : Option A → Option (String × A)
  taken_nothing none = none
  taken_nothing (some a) = some ("", a)

  abbrev pub rest_of : Option (String × A) → Option A
  rest_of none = none
  rest_of (some p) = some p.1

  -- As many characters of the class as leave a text on which the rest of the pattern matches.
  unfoldable pub repeat : (Char → Bool) → (String → Option A) → String → Option (String × A)
  repeat is_in rest String.[] = taken_nothing (rest "")
  repeat is_in rest (String.◌∷◌ c s) =
      let more = repeat is_in rest s in
      let here = taken_nothing (rest (String.◌∷◌ c s)) in
      if is_in c then coalesce (longer c more) here else here

  unfoldable pub repeat_once : (Char → Bool) → (String → Option A) → String → Option (String × A)
  unfolding repeat
  repeat_once is_in rest String.[] = none
  repeat_once is_in rest (String.◌∷◌ c s) = if is_in c then longer c (repeat is_in rest s) else none

  abbrev pub after : (String → Option A) → Option String → Option A
  after rest none = none
  after rest (some s) = rest s

abbrev pub grouped : Option (String × List String) → Option (List String)
grouped none = none
grouped (some p) = some (p.0 ∷ p.1)

-- The groups of the match that begins where the text begins.
unfoldable pub match_at : List Piece → String → Option (List String)
unfolding repeat_once repeat drop_prefix
match_at [] s = some []
match_at (exactly t ∷ pieces) s = after (match_at pieces) (drop_prefix t s)
match_at (spaces ∷ pieces) s = rest_of (repeat white (match_at pieces) s)
match_at (some_spaces ∷ pieces) s = rest_of (repeat_once white (match_at pieces) s)
match_at (group is_in ∷ pieces) s = grouped (repeat_once is_in (match_at pieces) s)

-- The groups of the first match in the text.
unfoldable pub search_text : List Piece → String → Option (List String)
unfolding match_at
search_text pieces String.[] = match_at pieces ""
search_text pieces (String.◌∷◌ c s) =
    let later = search_text pieces s in coalesce (match_at pieces (String.◌∷◌ c s)) later

-- Each character of the text is in the class, and there is one.
abbrev pub AllIn : (Char → Bool) → String → Type 0
AllIn is_in String.[] = Unit
AllIn is_in (String.◌∷◌ c s) = (is_in c ≡ true) × AllIn is_in s

module _ {ℓ} {A : Type ℓ} (is_in : Char → Bool) (rest : String → Option A) (a : A) (c : Char)
    (s : String) (stop : is_in c ≡ false) (found : rest (String.◌∷◌ c s) ≡ some a) where
  -- A run that the next character ends is taken whole.
  pub repeat_run :
      (t : String) → AllIn is_in t → repeat is_in rest (t +++ String.◌∷◌ c s) ≡ some (t, a)
  unfolding repeat
  repeat_run String.[] h = rw (stop, found) refl
  repeat_run (String.◌∷◌ d t) h = rw (h.0, repeat_run t h.1) refl

  pub repeat_once_run :
      (t : String)
      → is_empty t ≡ false
      → AllIn is_in t
      → repeat_once is_in rest (t +++ String.◌∷◌ c s) ≡ some (t, a)
  unfolding repeat_once
  repeat_once_run String.[] e h = absurd (cc e)
  repeat_once_run (String.◌∷◌ d t) e h = rw (h.0, repeat_run t h.1) refl
