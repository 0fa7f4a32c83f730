-- ===== src/Routing/Rules.antt =====
-- What the rules of `route_for_recipient` come to.
use code_workflow.Prelude.{
  String, ◌≡◌, ◌≢◌, refl, some, false, true, Bool, inl, inr, Bool-cases, arith, not, ◌&&◌, ◌||◌,
  str_eq, eq_iff, lower, if◌then◌else◌, is_some, sym, ap, ◌∙◌,
}
use code_workflow.Prelude.Split.{is_empty}
use code_workflow.Prelude.Regex.{AllIn, solid, word}
use code_workflow.Routing.{
  RouteAction, drop, route, defer, RouteRequest, RouteDecision, decide, sender_of, other_of, is_bot,
  has_role, route_for_recipient, parse_escalation_marker, parse_gateway_marker, parse_provenance,
  gateway_footer, provenance_footer,
}
use code_workflow.Routing.Footers.{
  parse_gateway_marker-gateway_footer, parse_provenance-provenance_footer,
}

-- The body has neither marker of the gateway's voice.
abbrev pub is_plain : RouteRequest → Bool
is_plain r = not (is_some (parse_escalation_marker r.body) || is_some (parse_gateway_marker r.body))

abbrev pub from_peer : RouteRequest → Bool
from_peer r = not (is_empty (other_of r)) && str_eq (sender_of r) (other_of r)

-- A named sender that is no bot, of a body that the recipient's role did not write.
abbrev pub from_human : RouteRequest → Bool
from_human r =
    not (is_empty (sender_of r) || is_bot r || has_role r.recipient_role (parse_provenance r.body))

abbrev pub from_owner : RouteRequest → Bool
from_owner r = str_eq (sender_of r) (lower r.owner)

abbrev pub is_echo : RouteRequest → Bool
is_echo r = str_eq (sender_of r) (lower r.recipient_login)

-- An event routes if it comes from the owner, or if it is plain, the session is not paused and a
-- peer or a human sent it; a plain event of a paused session waits; nothing else is kept.
abbrev pub spec_action : RouteRequest → RouteAction
spec_action r =
    if is_echo r
    then drop
    else if from_owner r || is_plain r && not r.session_paused && (from_peer r || from_human r)
    then route
    else if is_plain r && r.session_paused
    then defer
    else drop

-- The rules on the values of their tests, in the order in which they stand.
abbrev rules : Bool → Bool → Bool → Bool → Bool → Bool → Bool → Bool → Bool → RouteDecision
rules echo owner escalated gateway paused peer own nameless bot =
    if echo
    then decide drop "self-echo"
    else if owner
    then record { action = route; reason = "owner"; reset_consec = true }
    else if escalated
    then decide drop "gateway escalation comment"
    else if gateway
    then decide drop "gateway comment"
    else if paused
    then decide defer "session paused; non-owner"
    else if peer
    then decide route "peer-bot"
    else if own
    then decide drop "own-artifact provenance"
    else if not nameless && not bot
    then decide route "human-or-other"
    else decide drop "unclassified sender"

rules-action :
    (echo owner escalated gateway paused peer own nameless bot : Bool)
    → (rules echo owner escalated gateway paused peer own nameless bot).action ≡ (
        if echo
        then drop
        else if owner
            || not (escalated || gateway) && not paused && (peer || not (nameless || bot || own))
        then route
        else if not (escalated || gateway) && paused
        then defer
        else drop)
rules-action true owner escalated gateway paused peer own nameless bot = refl
rules-action false true escalated gateway paused peer own nameless bot = refl
rules-action false false true gateway paused peer own nameless bot = refl
rules-action false false false true paused peer own nameless bot = refl
rules-action false false false false true peer own nameless bot = refl
rules-action false false false false false true own nameless bot = refl
rules-action false false false false false false true true bot = refl
rules-action false false false false false false true false true = refl
rules-action false false false false false false true false false = refl
rules-action false false false false false false false true bot = refl
rules-action false false false false false false false false true = refl
rules-action false false false false false false false false false = refl

rules-reset_consec :
    (echo owner escalated gateway paused peer own nameless bot : Bool)
    → (rules echo owner escalated gateway paused peer own nameless bot).reset_consec
      ≡ (not echo && owner)
rules-reset_consec true owner escalated gateway paused peer own nameless bot = refl
rules-reset_consec false true escalated gateway paused peer own nameless bot = refl
rules-reset_consec false false true gateway paused peer own nameless bot = refl
rules-reset_consec false false false true paused peer own nameless bot = refl
rules-reset_consec false false false false true peer own nameless bot = refl
rules-reset_consec false false false false false true own nameless bot = refl
rules-reset_consec false false false false false false true nameless bot = refl
rules-reset_consec false false false false false false false true bot = refl
rules-reset_consec false false false false false false false false true = refl
rules-reset_consec false false false false false false false false false = refl

-- The rules of `route_for_recipient` give `spec_action`, and reset the budget of consecutive agent
-- turns exactly for an event that the owner sent and that is no echo to the recipient.
route_for_recipient_lem :
    (r : RouteRequest)
    → ((route_for_recipient r).action ≡ spec_action r)
      × ((route_for_recipient r).reset_consec ≡ (not (is_echo r) && from_owner r))
unfolding route_for_recipient
route_for_recipient_lem r = (
  rules-action (is_echo r) (from_owner r) (is_some (parse_escalation_marker r.body))
      (is_some (parse_gateway_marker r.body)) r.session_paused (from_peer r)
      (has_role r.recipient_role (parse_provenance r.body)) (is_empty (sender_of r)) (is_bot r),
  rules-reset_consec (is_echo r) (from_owner r) (is_some (parse_escalation_marker r.body))
      (is_some (parse_gateway_marker r.body)) r.session_paused (from_peer r)
      (has_role r.recipient_role (parse_provenance r.body)) (is_empty (sender_of r)) (is_bot r),
)

is_plain_marked :
    (r : RouteRequest) (key : String) → parse_gateway_marker r.body ≡ some key → is_plain r ≡ false
is_plain_marked r key e = elim (Bool-cases (is_some (parse_escalation_marker r.body))) [
  | inl x ↦ rw x refl
  | inr x ↦ rw (x, e) refl
]

spec_action_voice :
    (r : RouteRequest) → is_plain r ≡ false → from_owner r ≡ false → spec_action r ≡ drop
spec_action_voice r voice stranger = elim (Bool-cases (is_echo r)) [
  | inl e ↦ rw e refl
  | inr e ↦ rw (e, stranger, voice) refl
]

-- A comment that is the gateway's footer, for a session's key that is not empty and has no white
-- space, gives no agent a turn unless the owner sent it: it is neither routed nor kept for later.
pub gateway_footer_drop :
    (r : RouteRequest) (key : String)
    → is_empty key ≡ false
    → AllIn solid key
    → r.body ≡ some (gateway_footer key)
    → sender_of r ≢ lower r.owner
    → (route_for_recipient r).action ≡ drop
gateway_footer_drop r key full h e other =
    let marker : parse_gateway_marker r.body ≡ some key =
      ap parse_gateway_marker e ∙ parse_gateway_marker-gateway_footer key full h in
    let stranger : from_owner r ≡ false =
      ground (arith, eq_iff (sender_of r) (lower r.owner), other) in
    let voice : is_plain r ≡ false = is_plain_marked r key marker in
    (route_for_recipient_lem r).0 ∙ spec_action_voice r voice stranger

paused_strangers :
    (r : RouteRequest) → r.session_paused ≡ true → from_owner r ≡ false → spec_action r ≢ route
paused_strangers r paused h e = elim (Bool-cases (is_echo r)) [
  | inl echo ↦ let dropped : spec_action r ≡ drop = rw echo refl in cc (sym dropped ∙ e)
  | inr echo ↦ elim (Bool-cases (is_plain r)) [
    | inl plain ↦
        let kept : spec_action r ≡ defer = rw (echo, h, plain, paused) refl in cc (sym kept ∙ e)
    | inr plain ↦
        let dropped : spec_action r ≡ drop = rw (echo, h, plain) refl in cc (sym dropped ∙ e)
  ]
]

-- While the session is paused an event is routed to the recipient only if the owner sent it.
pub paused_route :
    (r : RouteRequest)
    → r.session_paused ≡ true
    → (route_for_recipient r).action ≡ route
    → sender_of r ≡ lower r.owner
paused_route r paused e = elim (Bool-cases (from_owner r)) [
  | inl h ↦ (eq_iff (sender_of r) (lower r.owner)).0 h
  | inr h ↦ absurd (paused_strangers r paused h (sym (route_for_recipient_lem r).0 ∙ e))
]

own_strangers :
    (r : RouteRequest)
    → from_owner r ≡ false
    → from_peer r ≡ false
    → from_human r ≡ false
    → spec_action r ≢ route
own_strangers r h peer human e = elim (Bool-cases (is_echo r)) [
  | inl echo ↦ let dropped : spec_action r ≡ drop = rw echo refl in cc (sym dropped ∙ e)
  | inr echo ↦ ground (arith, echo, h, peer, human, e)
]

-- A comment that is the footer of a turn of the recipient's role, whoever quotes it, gives the recipient
-- no turn unless it comes from the owner or from the other agent. The footer's key, role and turn are
-- not empty, the key and the turn have no white space, and the role is made of letters, digits and
-- underscores.
pub own_footer_unrouted :
    (r : RouteRequest) (key role turn : String)
    → is_empty key ≡ false
    → is_empty role ≡ false
    → is_empty turn ≡ false
    → AllIn solid key
    → AllIn word role
    → AllIn solid turn
    → r.body ≡ some (provenance_footer key role turn)
    → r.recipient_role ≡ role
    → sender_of r ≢ lower r.owner
    → sender_of r ≢ other_of r
    → (route_for_recipient r).action ≢ route
own_footer_unrouted r key role turn k o t hk ho ht body same stranger apart e =
    let read : parse_provenance r.body ≡ some (record { session = key; role = role; turn = turn }) =
      ap parse_provenance body ∙ parse_provenance-provenance_footer key role turn k o t hk ho ht in
    let own : has_role r.recipient_role (parse_provenance r.body) ≡ true =
      rw (read, same) ((eq_iff role role).1 refl) in
    own_strangers r (ground (arith, eq_iff (sender_of r) (lower r.owner), stranger))
      (ground (arith, eq_iff (sender_of r) (other_of r), apart)) (ground (arith, own))
      (sym (route_for_recipient_lem r).0 ∙ e)
