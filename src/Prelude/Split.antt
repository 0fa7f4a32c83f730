-- ===== src/Prelude/Split.antt =====
-- Python's `str.partition`, `str.endswith`, `str.startswith` with the slice after it, and `in` and
-- `not` on texts, by clauses on the characters.
use Prim.Native.Char.{Char, code}
use Prim.Native.String.{String}
use mathlib.Core.Bool.{Bool, true, false, ◌||◌}
use mathlib.Core.Path.{◌≡◌, refl}
use mathlib.Core.Option.{Option, none, some}
use native.Mathlib.Omega.{arith}
use text.Mathlib.Text.{◌==◌ as str_eq}
use mathlib.Core.Logic.{inl, inr}
use code_workflow.Prelude.Tests.{◌==◌, if◌then◌else◌, Bool-cases}

-- The second text after the first.
infixr 60 ◌+++◌
abbrev pub ◌+++◌ : String → String → String
String.[] +++ t = t
(String.◌∷◌ c s) +++ t = String.◌∷◌ c (s +++ t)

abbrev pub is_empty : String → Bool
is_empty String.[] = true
is_empty (String.◌∷◌ c s) = false

-- The text before the first `c`, whether there is one, and the text after it.
unfoldable pub partition : Char → String → String × (Bool × String)
partition sep String.[] = ("", (false, ""))
partition sep (String.◌∷◌ c s) =
    let rest = partition sep s in
    if code c == code sep then ("", (true, s)) else (String.◌∷◌ c rest.0, rest.1)

-- What stands after the prefix; `none` if the text does not start with it.
unfoldable pub drop_prefix : String → String → Option String
drop_prefix String.[] s = some s
drop_prefix (String.◌∷◌ c p) String.[] = none
drop_prefix (String.◌∷◌ c p) (String.◌∷◌ d s) =
    let rest = drop_prefix p s in if code c == code d then rest else none

unfoldable pub has_char : Char → String → Bool
has_char c String.[] = false
has_char c (String.◌∷◌ d s) = code d == code c || has_char c s

unfoldable pub ends_with : String → String → Bool
ends_with String.[] t = is_empty t
ends_with (String.◌∷◌ c s) t = str_eq (String.◌∷◌ c s) t || ends_with s t

pub drop_prefix-append : (p s : String) → drop_prefix p (p +++ s) ≡ some s
unfolding drop_prefix
drop_prefix-append String.[] s = refl
drop_prefix-append (String.◌∷◌ c p) s =
    let same : (code c == code c) ≡ true = ground arith in rw (same, drop_prefix-append p s) refl

pub partition-append :
    (c : Char) (s t : String)
    → has_char c s ≡ false
    → partition c (s +++ (String.◌∷◌ c t)) ≡ (s, (true, t))
unfolding partition has_char
partition-append c String.[] t h =
    let same : (code c == code c) ≡ true = ground arith in rw same refl
partition-append c (String.◌∷◌ d s) t h = elim (Bool-cases (code d == code c)) [
  | inl e ↦ ground (arith, e)
  | inr e ↦
      let rest : has_char c s ≡ false = ground (arith, e, h) in
      rw (e, partition-append c s t rest) refl
]
