-- ===== src/Prelude/Decimal.antt =====
-- Python's `str(n)` and `int(text)` on decimal ASCII text.
pub mod Laws
use Prim.Native.Nat.{ℕ, zero, suc, ◌+◌, ◌-◌, ◌*◌, ◌/◌, ◌%◌}
use Prim.Native.Char.{Char, code}
use Prim.Native.String.{String}
use mathlib.Core.Bool.{Bool, true, false, ◌&&◌}
use mathlib.Core.Option
use mathlib.Core.Option.{Option, none, some}
use code_workflow.Prelude.Tests.{ltb, leb, ◌==◌, if◌then◌else◌}
use code_workflow.Prelude.Text.{strip, strip_start, strip_end}
use code_workflow.Prelude.Int.{ℤ, pos, negsuc}

unfoldable pub digit : ℕ → Char
digit zero = "0"
digit (suc zero) = "1"
digit (suc (suc zero)) = "2"
digit (suc (suc (suc zero))) = "3"
digit (suc (suc (suc (suc zero)))) = "4"
digit (suc (suc (suc (suc (suc zero))))) = "5"
digit (suc (suc (suc (suc (suc (suc zero)))))) = "6"
digit (suc (suc (suc (suc (suc (suc (suc zero))))))) = "7"
digit (suc (suc (suc (suc (suc (suc (suc (suc zero)))))))) = "8"
digit _ = "9"

-- The digits of a number before the text; the fuel is more than the number, which falls.
unfoldable pub digits : ℕ → ℕ → String → String
unfolding digit
digits zero n acc = acc
digits (suc fuel) n acc =
    let rest = digits fuel (n / 10) (String.◌∷◌ (digit (n % 10)) acc) in
    if ltb n 10 then String.◌∷◌ (digit n) acc else rest

unfoldable pub decimal : ℕ → String
unfolding digits
decimal n = digits (suc n) n ""

unfoldable pub decimal_ℤ : ℤ → String
unfolding decimal
decimal_ℤ (pos n) = decimal n
decimal_ℤ (negsuc n) = String.◌∷◌ "-" (decimal (suc n))

abbrev pub is_digit : Char → Bool
is_digit c = leb 48 (code c) && leb (code c) 57

abbrev pub starts_with_digit : String → Bool
starts_with_digit String.[] = false
starts_with_digit (String.◌∷◌ c s) = is_digit c

-- After a digit: digits, each of which may have one underscore before it.
unfoldable pub read_digits : ℕ → String → Option ℕ
read_digits v String.[] = some v
read_digits v (String.◌∷◌ c s) =
    let rest = read_digits (if is_digit c then v * 10 + (code c - 48) else v) s in
    if is_digit c then rest else if code c == 95 && starts_with_digit s then rest else none

unfoldable pub read_number : String → Option ℕ
unfolding read_digits
read_number s = if starts_with_digit s then read_digits 0 s else none

abbrev negated : ℕ → ℤ
negated zero = pos zero
negated (suc n) = negsuc n

abbrev read_signed : String → Option ℤ
read_signed String.[] = none
read_signed (String.◌∷◌ c s) =
    if code c == 45
    then Option.map negated (read_number s)
    else if code c == 43
    then Option.map pos (read_number s)
    else Option.map pos (read_number (String.◌∷◌ c s))

-- `none` is the ValueError.
unfoldable pub parse_int : String → Option ℤ
unfolding read_number strip
parse_int s = read_signed (strip s)
