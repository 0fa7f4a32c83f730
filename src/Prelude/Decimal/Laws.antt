-- ===== src/Prelude/Decimal/Laws.antt =====
-- Printing a number and reading it.
use Prim.Native.Nat.{ℕ, zero, suc, ◌+◌, ◌-◌, ◌*◌, ◌/◌, ◌%◌, ◌<◌}
use Prim.Native.Char.{Char, code}
use Prim.Native.String.{String}
use mathlib.Core.Path.{◌≡◌, refl, ap, ◌∙◌}
use mathlib.Core.Option
use mathlib.Core.Logic.{inl, inr}
use mathlib.Core.Bool.{true, false}
use mathlib.Core.Option.{Option, none, some}
use native.Mathlib.Omega.{arith}
use code_workflow.Prelude.Tests.{ltb, ◌==◌, if◌then◌else◌, Bool-cases}
use code_workflow.Prelude.Text.{is_space, strip_start, strip_end}
use code_workflow.Prelude.Int.{ℤ, pos, negsuc}
use code_workflow.Prelude.Decimal.{
  digit, digits, decimal, decimal_ℤ, is_digit, starts_with_digit, read_digits, read_number,
  parse_int,
}

code-digit : (d : ℕ) → d < 10 → code (digit d) ≡ 48 + d
unfolding digit
code-digit zero h = refl
code-digit (suc zero) h = refl
code-digit (suc (suc zero)) h = refl
code-digit (suc (suc (suc zero))) h = refl
code-digit (suc (suc (suc (suc zero)))) h = refl
code-digit (suc (suc (suc (suc (suc zero))))) h = refl
code-digit (suc (suc (suc (suc (suc (suc zero)))))) h = refl
code-digit (suc (suc (suc (suc (suc (suc (suc zero))))))) h = refl
code-digit (suc (suc (suc (suc (suc (suc (suc (suc zero)))))))) h = refl
code-digit (suc (suc (suc (suc (suc (suc (suc (suc (suc zero))))))))) h = refl
code-digit (suc (suc (suc (suc (suc (suc (suc (suc (suc (suc n)))))))))) h = absurd (omega arith)

digit-is_digit : (d : ℕ) → d < 10 → is_digit (digit d) ≡ true
digit-is_digit d h = ground (arith, code-digit d h)

-- Each character of the text is a digit.
abbrev pub AllDigits : String → Type 0
AllDigits String.[] = Unit
AllDigits (String.◌∷◌ c s) = (is_digit c ≡ true) × AllDigits s

digits-AllDigits : (f n : ℕ) (acc : String) → AllDigits acc → AllDigits (digits f n acc)
unfolding digits
digits-AllDigits zero n acc h = h
digits-AllDigits (suc f) n acc h = elim (Bool-cases (ltb n 10)) [
  | inl e ↦ rw e (digit-is_digit n (ground arith), h)
  | inr e ↦ rw e (digits-AllDigits f (n / 10) _ (digit-is_digit (n % 10) (omega arith), h))
]

pub decimal-AllDigits : (n : ℕ) → AllDigits (decimal n)
unfolding decimal
decimal-AllDigits n = digits-AllDigits (suc n) n "" tt

read_digits-digit :
    (v d : ℕ) (acc : String)
    → d < 10
    → read_digits v (String.◌∷◌ (digit d) acc) ≡ read_digits (v * 10 + d) acc
unfolding read_digits
read_digits-digit v d acc h =
    let same : code (digit d) - 48 ≡ d = omega (arith, code-digit d h) in
    rw (digit-is_digit d h, same) refl

read_digits-digits :
    (f n : ℕ) (acc : String) → n < f → read_digits 0 (digits f n acc) ≡ read_digits n acc
unfolding digits
read_digits-digits zero n acc h = absurd (omega arith)
read_digits-digits (suc f) n acc h = elim (Bool-cases (ltb n 10)) [
  | inl e ↦
      rw e (read_digits-digit 0 n acc (ground arith) ∙ ap (λ v. read_digits v acc) (omega arith))
  | inr e ↦ rw e (
      read_digits-digits f (n / 10) _ (ground arith)
      ∙ read_digits-digit (n / 10) (n % 10) acc (omega arith)
      ∙ ap (λ v. read_digits v acc) (omega arith))
]

strip_start-AllDigits : (s : String) → AllDigits s → strip_start s ≡ s
unfolding strip_start
strip_start-AllDigits String.[] h = refl
strip_start-AllDigits (String.◌∷◌ c s) h =
    let full : is_space (code c) ≡ false = ground arith in rw full refl

strip_end-AllDigits : (s : String) → AllDigits s → strip_end s ≡ s
unfolding strip_end
strip_end-AllDigits String.[] h = refl
strip_end-AllDigits (String.◌∷◌ c s) h =
    let full : is_space (code c) ≡ false = ground arith in rw (full, strip_end-AllDigits s h.1) refl

pub parse_int-AllDigits :
    (c : Char) (s : String)
    → AllDigits (String.◌∷◌ c s)
    → parse_int (String.◌∷◌ c s) ≡ Option.map pos (read_digits 0 (String.◌∷◌ c s))
unfolding parse_int
parse_int-AllDigits c s h =
    let sign : (code c == 45) ≡ false = ground arith in
    let plus : (code c == 43) ≡ false = ground arith in
    rw
      (
        strip_start-AllDigits (String.◌∷◌ c s) h,
        strip_end-AllDigits (String.◌∷◌ c s) h,
        sign,
        plus,
        h.0,
      )
      refl

digits-cons_acc :
    (f n : ℕ) (c : Char) (s : String)
    → (c' : Char) × (s' : String) × (digits f n (String.◌∷◌ c s) ≡ String.◌∷◌ c' s')
unfolding digits
digits-cons_acc zero n c s = (c, s, refl)
digits-cons_acc (suc f) n c s = elim (Bool-cases (ltb n 10)) [
  | inl e ↦ (digit n, String.◌∷◌ c s, (rw e refl))
  | inr e ↦
      let (c', s', e') = digits-cons_acc f (n / 10) (digit (n % 10)) (String.◌∷◌ c s) in
      (c', s', rw e e')
]

digits-cons :
    (f n : ℕ) (acc : String) → (c : Char) × (s : String) × (digits (suc f) n acc ≡ String.◌∷◌ c s)
unfolding digits
digits-cons f n acc = elim (Bool-cases (ltb n 10)) [
  | inl e ↦ (digit n, acc, (rw e refl))
  | inr e ↦ let (c, s, e') = digits-cons_acc f (n / 10) (digit (n % 10)) acc in (c, s, rw e e')
]

parse_int-text :
    (text : String) (n : ℕ) (c : Char) (s : String)
    → text ≡ String.◌∷◌ c s
    → AllDigits text
    → read_digits 0 text ≡ some n
    → parse_int text ≡ some (pos n)
parse_int-text String.[] n c s e all value = absurd (cc e)
parse_int-text (String.◌∷◌ c' s') n c s e all value =
    parse_int-AllDigits c' s' all ∙ ap (Option.map pos) value

-- int(str(n)) is n.
pub parse_int-decimal : (n : ℕ) → parse_int (decimal n) ≡ some (pos n)
unfolding decimal read_digits
parse_int-decimal n =
    let (c, s, e) = digits-cons n n "" in
    parse_int-text (decimal n) n c s e (decimal-AllDigits n)
      (read_digits-digits (suc n) n "" (omega arith))

read_number_if :
    (s : String) → read_number s ≡ (if starts_with_digit s then read_digits 0 s else none)
unfolding read_number
read_number_if s = refl

read_number-text :
    (text : String) (n : ℕ) (c : Char) (s : String)
    → text ≡ String.◌∷◌ c s
    → AllDigits text
    → read_digits 0 text ≡ some n
    → read_number text ≡ some n
read_number-text String.[] n c s e all value = absurd (cc e)
read_number-text (String.◌∷◌ c' s') n c s e all value =
    read_number_if (String.◌∷◌ c' s') ∙ rw (all.0, value) refl

read_number-decimal : (n : ℕ) → read_number (decimal n) ≡ some n
unfolding decimal read_digits
read_number-decimal n =
    let (c, s, e) = digits-cons n n "" in
    read_number-text (decimal n) n c s e (decimal-AllDigits n)
      (read_digits-digits (suc n) n "" (omega arith))

parse_int-minus :
    (text : String) (n : ℕ)
    → AllDigits text
    → read_number text ≡ some (suc n)
    → parse_int (String.◌∷◌ "-" text) ≡ some (negsuc n)
unfolding parse_int strip_start strip_end
parse_int-minus text n all value = rw (strip_end-AllDigits text all, value) refl

-- int(str(z)) is z.
pub parse_int-decimal_ℤ : (z : ℤ) → parse_int (decimal_ℤ z) ≡ some z
unfolding decimal_ℤ
parse_int-decimal_ℤ (pos n) = parse_int-decimal n
parse_int-decimal_ℤ (negsuc n) =
    parse_int-minus (decimal (suc n)) n (decimal-AllDigits (suc n)) (read_number-decimal (suc n))
