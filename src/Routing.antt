-- ===== src/Routing.antt =====
-- agentd/src/agentd/routing.py: what an event means for one recipient, and the markers by which a
-- comment shows who wrote it. `role_logins`, which the function computes from and does not use, is
-- left out.
pub mod Rules
pub mod Footers
use code_workflow.Prelude.{
  String, Bool, true, false, not, ◌&&◌, ◌||◌, Option, none, some, List, [], ◌∷◌, if◌then◌else◌,
  get_or, is_some, str_eq, lower, any, map,
}
use code_workflow.Prelude.Split.{◌+++◌, is_empty}
use code_workflow.Prelude.Regex.{
  Piece, exactly, spaces, some_spaces, group, solid, word, search_text,
}

-- PROVENANCE_RE
abbrev pub provenance_re : List Piece
provenance_re =
    exactly "<!--"
    ∷ spaces
    ∷ exactly "agentd:turn"
    ∷ some_spaces
    ∷ exactly "session="
    ∷ group solid
    ∷ some_spaces
    ∷ exactly "role="
    ∷ group word
    ∷ some_spaces
    ∷ exactly "turn="
    ∷ group solid
    ∷ spaces
    ∷ exactly "-->"
    ∷ []

-- A marker with the session's key only, for the word after `agentd:`.
abbrev pub session_re : String → List Piece
session_re tag =
    exactly "<!--"
    ∷ spaces
    ∷ exactly tag
    ∷ some_spaces
    ∷ exactly "session="
    ∷ group solid
    ∷ spaces
    ∷ exactly "-->"
    ∷ []

-- ESCALATION_RE
abbrev pub escalation_re : List Piece
escalation_re = session_re "agentd:escalation"

-- GATEWAY_RE
abbrev pub gateway_re : List Piece
gateway_re = session_re "agentd:gateway"

pub data RouteAction : Type 0 where
  drop route defer : RouteAction

pub record RouteDecision : Type 0 where
  pub action : RouteAction
  pub reason : String
  pub reset_consec : Bool

abbrev pub decide : RouteAction → String → RouteDecision
decide action reason = record { action = action; reason = reason; reset_consec = false }

unfoldable pub provenance_footer : String → String → String → String
provenance_footer session_key role turn_id =
    "<!-- agentd:turn session=" +++ session_key +++ " role=" +++ role +++ " turn=" +++ turn_id
    +++ " -->"

unfoldable pub gateway_footer : String → String
gateway_footer session_key = "<!-- agentd:gateway session=" +++ session_key +++ " -->"

-- The `groupdict()` of PROVENANCE_RE.
pub record Provenance : Type 0 where
  pub session : String
  pub role : String
  pub turn : String

abbrev provenance_of : Option (List String) → Option Provenance
provenance_of (some (session ∷ role ∷ turn ∷ [])) =
    some (record { session = session; role = role; turn = turn })
provenance_of _ = none

abbrev session_of : Option (List String) → Option String
session_of (some (session ∷ [])) = some session
session_of _ = none

abbrev search_body : List Piece → Option String → Option (List String)
unfolding search_text
search_body pattern none = none
search_body pattern (some body) = if is_empty body then none else search_text pattern body

unfoldable pub parse_provenance : Option String → Option Provenance
unfolding search_text
parse_provenance body = provenance_of (search_body provenance_re body)

unfoldable pub parse_escalation_marker : Option String → Option String
unfolding search_text
parse_escalation_marker body = session_of (search_body escalation_re body)

unfoldable pub parse_gateway_marker : Option String → Option String
unfolding search_text
parse_gateway_marker body = session_of (search_body gateway_re body)

-- The keyword arguments that `route_for_recipient` reads.
pub record RouteRequest : Type 0 where
  pub sender : Option String
  pub recipient_login : String
  pub recipient_role : String
  pub other_bot_login : Option String
  pub owner : String
  pub body : Option String
  pub session_paused : Bool
  pub bot_logins : Option (List String)

abbrev pub sender_of : RouteRequest → String
sender_of r = lower (get_or "" r.sender)

abbrev pub other_of : RouteRequest → String
other_of r = lower (get_or "" r.other_bot_login)

-- sender in bots: the logins of the bots, the recipient's and the other's, without the empty one
abbrev pub is_bot : RouteRequest → Bool
is_bot r =
    not (is_empty (sender_of r))
    && any (str_eq (sender_of r))
        (lower r.recipient_login ∷ other_of r ∷ map lower (get_or [] r.bot_logins))

abbrev pub has_role : String → Option Provenance → Bool
has_role role none = false
has_role role (some p) = str_eq p.role role

unfoldable pub route_for_recipient : RouteRequest → RouteDecision
unfolding lower parse_escalation_marker parse_gateway_marker parse_provenance
route_for_recipient r =
    if str_eq (sender_of r) (lower r.recipient_login)
    then decide drop "self-echo"
    else if str_eq (sender_of r) (lower r.owner)
    then record { action = route; reason = "owner"; reset_consec = true }
    else if is_some (parse_escalation_marker r.body)
    then decide drop "gateway escalation comment"
    else if is_some (parse_gateway_marker r.body)
    then decide drop "gateway comment"
    else if r.session_paused
    then decide defer "session paused; non-owner"
    else if not (is_empty (other_of r)) && str_eq (sender_of r) (other_of r)
    then decide route "peer-bot"
    else if has_role r.recipient_role (parse_provenance r.body)
    then decide drop "own-artifact provenance"
    else if not (is_empty (sender_of r)) && not (is_bot r)
    then decide route "human-or-other"
    else decide drop "unclassified sender"
