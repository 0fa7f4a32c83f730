-- ===== src/Prelude/Text.antt =====
-- Python's `str.lower`, `str.upper` and `str.strip`. The case methods are those of ASCII letters, the
-- only ones in the texts that the program compares: logins, states, statuses and labels of GitHub.
use Prim.Native.Nat.{ℕ}
use Prim.Native.Char.{Char, code}
use Prim.Native.String.{String}
use mathlib.Core.Bool.{Bool, ◌&&◌, ◌||◌}
use text.Mathlib.Text.{◌==◌ as str_eq}
use code_workflow.Prelude.Tests.{leb, ◌==◌, if◌then◌else◌}

-- The letter of the second text at the place where the first has `c`; `c` if it has it nowhere.
abbrev translate : String → String → Char → Char
translate String.[] to c = c
translate (String.◌∷◌ f fs) String.[] c = c
translate (String.◌∷◌ f fs) (String.◌∷◌ t ts) c =
    let rest = translate fs ts c in if code f == code c then t else rest

map_chars : (Char → Char) → String → String
map_chars f String.[] = String.[]
map_chars f (String.◌∷◌ c s) = String.◌∷◌ (f c) (map_chars f s)

unfoldable pub lower : String → String
unfolding map_chars
lower = map_chars (translate "ABCDEFGHIJKLMNOPQRSTUVWXYZ" "abcdefghijklmnopqrstuvwxyz")

unfoldable pub upper : String → String
unfolding map_chars
upper = map_chars (translate "abcdefghijklmnopqrstuvwxyz" "ABCDEFGHIJKLMNOPQRSTUVWXYZ")

-- The characters that `str.strip()` removes.
abbrev pub is_space : ℕ → Bool
is_space c =
    leb 9 c && leb c 13
    || leb 28 c && leb c 32
    || c == 133
    || c == 160
    || c == 5760
    || leb 8192 c && leb c 8202
    || c == 8232
    || c == 8233
    || c == 8239
    || c == 8287
    || c == 12288

unfoldable pub strip_start : String → String
strip_start String.[] = String.[]
strip_start (String.◌∷◌ c s) =
    let rest = strip_start s in if is_space (code c) then rest else String.◌∷◌ c s

unfoldable pub strip_end : String → String
strip_end String.[] = String.[]
strip_end (String.◌∷◌ c s) =
    let rest = strip_end s in
    if is_space (code c) && str_eq rest "" then String.[] else String.◌∷◌ c rest

unfoldable pub strip : String → String
unfolding strip_start strip_end
strip s = strip_end (strip_start s)
