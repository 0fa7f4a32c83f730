-- ===== src/SessionLoop/Process/Events.antt =====
-- `_process_one` of agentd/src/agentd/session_loop.py, from the parts of a review to the kind of the
-- event: what ends without a look at the state machine.
use code_workflow.Prelude.{
  String, Option, none, some, Bool, true, false, not, ◌&&◌, ◌||◌, [], ◌∷◌, if◌then◌else◌, str_eq,
  get_or, lower, upper, is_some,
}
use code_workflow.Prelude.Split.{◌+++◌, is_empty, drop_prefix}
use code_workflow.Prelude.Decimal.{decimal}
use code_workflow.Fsm.{SessionState, EventKind, paused_human}
use code_workflow.LoopSafety.{
  BudgetState, new_budget, breach, Breach, turn_budget, consec_turns, rounds,
}
use code_workflow.Store.Rows.{Session, done}
use code_workflow.Store.Sessions.Fields.{Field}
use code_workflow.SessionLoop.{close_reconcile_held, close_reconcile_prefix}
use code_workflow.SessionLoop.Kinds.{event_kind, is_action}
use code_workflow.SessionLoop.Process.{
  Incoming, World, Outcome, next, ◌▷◌, Outside, end_with, end_handled, escalate_done, write_fields,
  one_of,
}
use code_workflow.SessionLoop.Process.Resolve.{pr_author_login}
use code_workflow.SessionLoop.Process.Admit.{Taken}

-- event in _REVIEW_PART_EVENTS
abbrev pub is_review_part : String → Bool
is_review_part event =
    one_of ("pull_request_review_comment" ∷ "pull_request_review_thread" ∷ []) event

-- event in _AUTHOR_PR_EVENTS
abbrev pub is_author_event : String → Bool
is_author_event event =
    one_of ("pull_request_review" ∷ "pull_request_review_comment" ∷ "issue_comment" ∷ []) event

-- str(review.get("state") or "").upper() in _VERDICT_REVIEW_STATES
abbrev pub is_verdict_state : Option String → Bool
is_verdict_state st = one_of ("APPROVED" ∷ "CHANGES_REQUESTED" ∷ []) (upper (get_or "" st))

-- Whether the sender is the pull request's author and not the owner.
unfoldable pub from_author : String → Incoming → Bool
unfolding pr_author_login
from_author owner e =
    is_author_event e.event
    && is_some (pr_author_login e)
    && str_eq (lower e.sender) (lower (get_or "" (pr_author_login e)))
    && not (str_eq (lower e.sender) (lower owner))

abbrev pub is_verdict_event : Incoming → Bool
is_verdict_event e = str_eq e.event "pull_request_review" && is_verdict_state e.parts.review_state

-- A part of a review, or an author's event about its own pull request that is no verdict: done.
abbrev pub skip_parts : String → Taken → World → Outcome Taken
skip_parts owner t w =
    if is_review_part t.incoming.event
    then end_with done t.incoming w
    else if from_author owner t.incoming && not (is_verdict_event t.incoming)
    then end_with done t.incoming w
    else next t w

-- reason.removeprefix(CLOSE_RECONCILE_PREFIX), or None where nothing is left
abbrev pub stripped_reason : Option String → Option String
stripped_reason reason =
    let rest = get_or (get_or "" reason) (drop_prefix close_reconcile_prefix (get_or "" reason)) in
    if is_empty rest then none else some rest

abbrev pub is_issue_action : String → Taken → Bool
is_issue_action name t = str_eq t.incoming.event "issues" && is_action t.incoming.action name

abbrev pub unmark : Session → Session
unmark x = record x { closed_issue_escalated_at = none }

abbrev pub breach_text : Breach → String
breach_text (turn_budget n most) =
    "turn budget exhausted (" +++ decimal n +++ ">=" +++ decimal most +++ ")"
breach_text (consec_turns n most) =
    "consec agent turns exhausted (" +++ decimal n +++ ">=" +++ decimal most +++ ")"
breach_text (rounds n most) =
    "review rounds exhausted (" +++ decimal n +++ ">=" +++ decimal most +++ ")"

abbrev pub budget_of : Session → BudgetState
budget_of x = record new_budget {
  turn_count = x.turn_count;
  consec_agent_turns = x.consec_agent_turns;
  review_rounds = x.review_rounds;
}

abbrev is_paused_state : SessionState → Bool
is_paused_state paused_human = true
is_paused_state _ = false

-- state == "PAUSED_HUMAN" or bool(sess.get("paused_reason"))
abbrev pub is_paused : Session → Bool
is_paused x = is_paused_state x.state || not (is_empty (get_or "" x.paused_reason))

-- The delivery with what the rest of the function branches on.
pub record Classified : Type 0 where
  pub taken : Taken
  pub state : SessionState
  pub paused : Bool
  pub kind : EventKind

abbrev pub kind_of : String → Taken → EventKind
kind_of owner t = let e = t.incoming in event_kind e.event e.action e.parts e.sender owner

abbrev pub classified : String → Taken → Classified
classified owner t = record {
  taken = t;
  state = t.sess.state;
  paused = is_paused t.sess;
  kind = kind_of owner t;
}

module _ (o : Outside) where
  -- `_lift_close_reconcile_hold`, after which the delivery is done
  abbrev pub lift_close_reconcile_hold : Taken → World → Outcome Taken
  lift_close_reconcile_hold t w =
      if close_reconcile_held t.sess.state t.sess
      then write_fields o t.session_key
          (Field.paused_reason (stripped_reason t.sess.paused_reason) ∷ []) w
        ▷ (λ u w'. end_with done t.incoming w')
      else next t w

  abbrev pub reopened : Taken → World → Outcome Taken
  reopened t w =
      write_fields o t.session_key (Field.closed_issue_escalated_at none ∷ []) w ▷ λ u w'.
      lift_close_reconcile_hold (record t { sess = unmark t.sess }) w'

  abbrev pub issue_events : Taken → World → Outcome Taken
  issue_events t w =
      if is_issue_action "closed" t
      then end_handled (o.issue_closed t.incoming t.sess t.issue_num w)
      else if is_issue_action "edited" t
      then end_handled (o.issue_edited t.incoming t.sess t.issue_num w)
      else if is_issue_action "reopened" t
      then reopened t w
      else next t w

  abbrev pub breached : Taken → World → Option Breach → Outcome Classified
  breached t w none = next (classified o.owner t) w
  breached t w (some b) = escalate_done o t.session_key (breach_text b) t.incoming w

  -- A paused session is not escalated again.
  abbrev pub check_budget : Taken → World → Outcome Classified
  check_budget t w =
      if is_paused t.sess
      then next (classified o.owner t) w
      else breached t w (breach (budget_of t.sess))

  unfoldable pub classify : Taken → World → Outcome Classified
  unfolding from_author close_reconcile_held breach event_kind
  classify t w = skip_parts o.owner t w ▷ issue_events ▷ check_budget
