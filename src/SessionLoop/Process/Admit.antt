-- ===== src/SessionLoop/Process/Admit.antt =====
-- The first part of `_process_one` of agentd/src/agentd/session_loop.py: the session of a delivery,
-- found or made.
use code_workflow.Prelude.{
  ℕ, String, Option, none, some, not, [], ◌∷◌, if◌then◌else◌, str_eq, get_or,
}
use code_workflow.Prelude.Int.{ℤ}
use code_workflow.Fsm.{Transition, intake, planning, session_created, transition}
use code_workflow.Intake.{may_create_session}
use code_workflow.Store.Rows.{Session, dropped}
use code_workflow.Store.Sessions.{get_session}
use code_workflow.Store.Sessions.Fields.{Field}
use code_workflow.SessionLoop.Process.{
  Incoming, World, Outcome, next, finished, ◌▷◌, Outside, Ensured, ensured, capacity_refused,
  ensure_failed, structural_refused, end_with, end_handled, write_fields,
}
use code_workflow.SessionLoop.Process.Resolve.{Resolved, resolve_session_for_delivery, row_of}

-- A delivery with its session, as the row was read, and the logins of the two roles.
pub record Taken : Type 0 where
  pub incoming : Incoming
  pub issue_num : ℤ
  pub session_key : String
  pub sess : Session
  pub architect : String
  pub developer : String

abbrev or_default : String → String → String
or_default login default = if str_eq login "" then default else login

module _ (o : Outside) where
  abbrev pub default_arch : String
  default_arch = get_or "huozheclaude" o.claude_login

  abbrev pub default_dev : String
  default_dev = get_or "huozhegrok" o.grok_login

  abbrev pub taken : Incoming → Resolved → Session → Taken
  taken e r x = record {
    incoming = e;
    issue_num = r.issue_num;
    session_key = r.session_key;
    sess = x;
    architect = or_default x.architect default_arch;
    developer = or_default x.developer default_dev;
  }

  abbrev pub take_up : Incoming → Resolved → Option Session → World → Outcome Taken
  take_up e r none w = finished w
  take_up e r (some x) w = next (taken e r x) w

  abbrev pub first_state : Resolved → Option Transition → World → Outcome Unit
  first_state r none w = next tt w
  first_state r (some tr) w = write_fields o r.session_key (Field.state tr.new_state ∷ []) w

  -- A session that `ensure_session` has stored goes to PLANNING.
  abbrev pub start : Resolved → Option Session → World → Outcome Unit
  start r none w = next tt w
  start r (some x) w = write_fields o r.session_key (Field.state planning ∷ []) w ▷ λ u w'.
      first_state r (transition (some intake) session_created) w'

  abbrev pub after_ensure : Incoming → Resolved → Ensured → Outcome Taken
  after_ensure e r (ensured w) = start r (row_of (get_session r.session_key w.store)) w ▷ λ u w'.
      take_up e r (row_of (get_session r.session_key w'.store)) w'
  after_ensure e r (capacity_refused w) = finished w
  after_ensure e r (ensure_failed w) = finished w
  after_ensure e r (structural_refused reason w) =
      end_handled (o.structural_refusal r.session_key e reason w)

  abbrev pub find_session : Incoming → Resolved → World → Option Session → Outcome Taken
  find_session e r w (some x) = take_up e r (some x) w
  find_session e r w none =
      if not (may_create_session e.event e.action e.payload o.intake)
      then end_with dropped e w
      else if not o.has_supervisor
      then finished w
      else after_ensure e r
          (o.ensure_session r.session_key e.repo r.issue_num default_arch default_dev w)

  abbrev pub admit_issue : Incoming → World → Option ℕ → Outcome Taken
  admit_issue e w none = end_with dropped e w
  admit_issue e w (some n) =
      let r = resolve_session_for_delivery e n w.store in find_session e r w r.session

  unfoldable pub admit : Incoming → World → Outcome Taken
  unfolding may_create_session resolve_session_for_delivery get_session transition
  admit e w = if str_eq e.repo "" then end_with dropped e w else admit_issue e w e.issue_num
