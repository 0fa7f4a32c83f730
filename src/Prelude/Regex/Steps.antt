-- ===== src/Prelude/Regex/Steps.antt =====
-- Matching a pattern piece by piece.
use Prim.Native.Char.{Char}
use Prim.Native.String.{String}
use mathlib.Core.Bool.{Bool, false}
use mathlib.Core.List.{List, ◌∷◌}
use mathlib.Core.Path.{◌≡◌, refl, ap}
use mathlib.Core.Option.{some}
use code_workflow.Prelude.Split.{◌+++◌, drop_prefix-append, is_empty}
use code_workflow.Prelude.Regex.{
  Piece, exactly, spaces, some_spaces, group, white, match_at, search_text, AllIn, repeat_run,
  repeat_once_run, after, rest_of, grouped,
}

module _ (pieces : List Piece) where
  pub match_at-exactly :
      (t s : String) → match_at (exactly t ∷ pieces) (t +++ s) ≡ match_at pieces s
  unfolding match_at
  match_at-exactly t s = ap (after (match_at pieces)) (drop_prefix-append t s)

  pub search_text_start :
      (s : String) (gs : List String) → match_at pieces s ≡ some gs → search_text pieces s ≡ some gs
  unfolding search_text
  search_text_start String.[] gs h = h
  search_text_start (String.◌∷◌ c s) gs h = rw h refl

  module _ (c : Char) (s : String) (gs : List String)
      (found : match_at pieces (String.◌∷◌ c s) ≡ some gs) where
    pub match_at-spaces :
        (t : String)
        → white c ≡ false
        → AllIn white t
        → match_at (spaces ∷ pieces) (t +++ String.◌∷◌ c s) ≡ some gs
    unfolding match_at
    match_at-spaces t stop h = ap rest_of (repeat_run white (match_at pieces) gs c s stop found t h)

    pub match_at-some_spaces :
        (t : String)
        → white c ≡ false
        → is_empty t ≡ false
        → AllIn white t
        → match_at (some_spaces ∷ pieces) (t +++ String.◌∷◌ c s) ≡ some gs
    unfolding match_at
    match_at-some_spaces t stop e h =
        ap rest_of (repeat_once_run white (match_at pieces) gs c s stop found t e h)

    pub match_at-group :
        (is_in : Char → Bool) (t : String)
        → is_in c ≡ false
        → is_empty t ≡ false
        → AllIn is_in t
        → match_at (group is_in ∷ pieces) (t +++ String.◌∷◌ c s) ≡ some (t ∷ gs)
    unfolding match_at
    match_at-group is_in t stop e h =
        ap grouped (repeat_once_run is_in (match_at pieces) gs c s stop found t e h)
