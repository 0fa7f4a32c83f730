-- ===== src/Routing/Footers.antt =====
-- The footers of routing.py and the patterns that read them.
use code_workflow.Prelude.{String, ◌≡◌, refl, ◌∙◌, some, List, [], ◌∷◌, false}
use Prim.Native.Char.{Char}
use code_workflow.Prelude.Split.{◌+++◌, drop_prefix, is_empty}
use code_workflow.Prelude.Regex.{
  exactly, spaces, some_spaces, group, solid, word, match_at, AllIn, Piece, white,
}
use code_workflow.Prelude.Regex.Steps.{
  match_at-exactly, match_at-spaces, match_at-some_spaces, match_at-group, search_text_start,
}
use code_workflow.Routing.{
  provenance_footer, gateway_footer, parse_provenance, parse_gateway_marker, provenance_re,
  gateway_re,
}

match_at-arrow : match_at (exactly "-->" ∷ []) "-->" ≡ some []
unfolding match_at drop_prefix
match_at-arrow = refl

match_at-last :
    (t : String)
    → is_empty t ≡ false
    → AllIn solid t
    → match_at (group solid ∷ spaces ∷ exactly "-->" ∷ []) (t +++ " -->") ≡ some (t ∷ [])
match_at-last t e h =
    match_at-group (spaces ∷ exactly "-->" ∷ []) " " "-->" []
      (match_at-spaces (exactly "-->" ∷ []) "-" "->" [] match_at-arrow " " refl (refl, tt)) solid t
      refl e h

-- A space and a fixed text, before what the rest of the pattern matches.
match_at-label :
    (pieces : List Piece) (c : Char) (label s : String) (gs : List String)
    → white c ≡ false
    → match_at pieces s ≡ some gs
    → match_at
        (some_spaces ∷ exactly (String.◌∷◌ c label) ∷ pieces)
        (String.◌∷◌ " " ((String.◌∷◌ c label) +++ s))
      ≡ some gs
match_at-label pieces c label s gs w found =
    match_at-some_spaces (exactly (String.◌∷◌ c label) ∷ pieces) c (label +++ s) gs
      (match_at-exactly pieces (String.◌∷◌ c label) s ∙ found) " " w refl (refl, tt)

-- The arrow that opens a marker, and the tag.
match_at-tag :
    (pieces : List Piece) (tag s : String) (gs : List String)
    → match_at pieces s ≡ some gs
    → match_at (exactly "<!--" ∷ spaces ∷ exactly ("a" +++ tag) ∷ pieces) ("<!-- a" +++ (tag +++ s))
      ≡ some gs
match_at-tag pieces tag s gs found =
    match_at-exactly (spaces ∷ exactly ("a" +++ tag) ∷ pieces) "<!--" (" a" +++ (tag +++ s))
    ∙ match_at-spaces (exactly ("a" +++ tag) ∷ pieces) "a" (tag +++ s) gs
        (match_at-exactly pieces ("a" +++ tag) s ∙ found) " " refl (refl, tt)

gateway_footer-is_empty : (key : String) → is_empty (gateway_footer key) ≡ false
unfolding gateway_footer
gateway_footer-is_empty key = refl

gateway_match :
    (key : String)
    → is_empty key ≡ false
    → AllIn solid key
    → match_at gateway_re (gateway_footer key) ≡ some (key ∷ [])
unfolding gateway_footer
gateway_match key e h =
    match_at-tag (some_spaces ∷ exactly "session=" ∷ group solid ∷ spaces ∷ exactly "-->" ∷ [])
      "gentd:gateway" (" session=" +++ (key +++ " -->")) (key ∷ [])
      (match_at-label (group solid ∷ spaces ∷ exactly "-->" ∷ []) "s" "ession=" (key +++ " -->")
        (key ∷ []) refl (match_at-last key e h))

-- The pattern of gateway comments reads the session's key back from the gateway's footer, if the key
-- is not empty and has no white space.
pub parse_gateway_marker-gateway_footer :
    (key : String)
    → is_empty key ≡ false
    → AllIn solid key
    → parse_gateway_marker (some (gateway_footer key)) ≡ some key
unfolding parse_gateway_marker
parse_gateway_marker-gateway_footer key e h =
    let found =
      search_text_start gateway_re (gateway_footer key) (key ∷ []) (gateway_match key e h) in
    rw (gateway_footer-is_empty key, found) refl

module _ (key role turn : String) (key_full : is_empty key ≡ false)
    (role_full : is_empty role ≡ false) (turn_full : is_empty turn ≡ false)
    (key_solid : AllIn solid key) (role_word : AllIn word role)
    (turn_solid : AllIn solid turn) where
  from_turn :
      match_at
        (some_spaces ∷ exactly "turn=" ∷ group solid ∷ spaces ∷ exactly "-->" ∷ [])
        (" turn=" +++ turn +++ " -->")
      ≡ some (turn ∷ [])
  from_turn =
      match_at-label (group solid ∷ spaces ∷ exactly "-->" ∷ []) "t" "urn=" (turn +++ " -->")
        (turn ∷ []) refl (match_at-last turn turn_full turn_solid)

  from_role :
      match_at
        (some_spaces
          ∷ exactly "role="
          ∷ group word
          ∷ some_spaces
          ∷ exactly "turn="
          ∷ group solid
          ∷ spaces
          ∷ exactly "-->"
          ∷ [])
        (" role=" +++ role +++ " turn=" +++ turn +++ " -->")
      ≡ some (role ∷ turn ∷ [])
  from_role =
      let pieces = some_spaces ∷ exactly "turn=" ∷ group solid ∷ spaces ∷ exactly "-->" ∷ [] in
      match_at-label (group word ∷ pieces) "r" "ole=" (role +++ " turn=" +++ turn +++ " -->")
        (role ∷ turn ∷ []) refl
        (match_at-group pieces " " ("turn=" +++ turn +++ " -->") (turn ∷ []) from_turn word role
          refl role_full role_word)

  provenance_match :
      match_at provenance_re (provenance_footer key role turn) ≡ some (key ∷ role ∷ turn ∷ [])
  unfolding provenance_footer
  provenance_match =
      let pieces =
        some_spaces
        ∷ exactly "role="
        ∷ group word
        ∷ some_spaces
        ∷ exactly "turn="
        ∷ group solid
        ∷ spaces
        ∷ exactly "-->"
        ∷ [] in
      let tail = " role=" +++ role +++ " turn=" +++ turn +++ " -->" in
      match_at-tag (some_spaces ∷ exactly "session=" ∷ group solid ∷ pieces) "gentd:turn"
        (" session=" +++ key +++ tail) (key ∷ role ∷ turn ∷ [])
        (match_at-label (group solid ∷ pieces) "s" "ession=" (key +++ tail) (key ∷ role ∷ turn ∷ [])
          refl
          (match_at-group pieces " " ("role=" +++ role +++ " turn=" +++ turn +++ " -->")
            (role ∷ turn ∷ []) from_role solid key refl key_full key_solid))

  provenance_footer-is_empty : is_empty (provenance_footer key role turn) ≡ false
  unfolding provenance_footer
  provenance_footer-is_empty = refl

  -- The provenance pattern reads the session's key, the role and the turn's id back from the footer
  -- made of them, if none of the three is empty, the key and the id have no white space and the role
  -- is made of letters, digits and underscores.
  pub parse_provenance-provenance_footer :
      parse_provenance (some (provenance_footer key role turn))
      ≡ some (record { session = key; role = role; turn = turn })
  unfolding parse_provenance
  parse_provenance-provenance_footer =
      let found =
        search_text_start provenance_re (provenance_footer key role turn) (key ∷ role ∷ turn ∷ [])
          provenance_match in
      rw (provenance_footer-is_empty, found) refl
