-- ===== src/Fsm.antt =====
-- agentd/src/agentd/fsm.py: the session state machine that GitHub events drive.
-- A state or an event kind is a text in the source; here it is a constructor for each text that the
-- file names, and `other` for any text that it does not name.
pub mod Gates
pub mod Edges
use code_workflow.Prelude.{String, Bool, true, false, Option, none, some}

pub data SessionState : Type 0 where
  -- DESIGN_STATES
  intake planning design_review design_rework design_approved : SessionState
  implementing paused_human failed : SessionState
  -- CODE_STATES
  code_review code_rework merging awaiting_verification : SessionState
  -- TERMINAL_STATES
  teardown closed : SessionState
  other : String → SessionState

-- The kinds that `transition` reads, and those that the session loop's `_event_kind` and approval
-- checks name besides; `other` is a text `event.action`.
pub data EventKind : Type 0 where
  escalation owner_reply issues_closed session_created : EventKind
  design_pr_opened design_changes_requested design_revised design_approved design_merged : EventKind
  feature_pr_opened code_changes_requested feature_revised merge_authorized : EventKind
  feature_merged : EventKind
  issue_opened merge_design : EventKind
  design_approved_unverified feature_approved_unverified : EventKind
  other : String → EventKind

pub record Transition : Type 0 where
  pub new_state : SessionState
  pub freeze_roles : Bool
  pub note : String

-- s in TERMINAL_STATES
unfoldable pub is_terminal : SessionState → Bool
is_terminal teardown = true
is_terminal closed = true
is_terminal _ = false

to : SessionState → String → Option Transition
to s note = some (record { new_state = s; freeze_roles = false; note = note })

-- the dictionary `table` and its `get`
table : SessionState → EventKind → Option Transition
unfolding to
table intake session_created = to planning "roles resolved"
table planning design_pr_opened = some (record {
  new_state = design_review;
  freeze_roles = true;
  note = "roles freeze at Design PR open";
})
table design_review design_changes_requested = to design_rework ""
table design_rework design_revised = to design_review ""
table design_review EventKind.design_approved = to SessionState.design_approved ""
table SessionState.design_approved design_merged = to implementing ""
table implementing feature_pr_opened = to code_review "Feature PR open (developer branch)"
table code_review code_changes_requested = to code_rework ""
table code_rework feature_revised = to code_review ""
table code_review merge_authorized = to merging "gateway authorized Feature PR merge"
table merging feature_merged = to awaiting_verification "Feature PR merged + branch delete"
table awaiting_verification feature_pr_opened = to implementing "re-enter for further Feature PR"
table _ _ = none

-- the part of `transition` below the first return: a falsy state is INTAKE
step_state : SessionState → EventKind → Option Transition
unfolding table is_terminal
step_state s escalation = to paused_human "escalate.human"
step_state paused_human owner_reply = to planning "resume from pause (fallback PLANNING)"
step_state teardown issues_closed = none
step_state closed issues_closed = none
step_state s issues_closed = to teardown "owner closed issue"
step_state s k = table s k

-- `none` is a state that is empty or absent, which `state or "INTAKE"` replaces
unfoldable pub transition : Option SessionState → EventKind → Option Transition
unfolding step_state to
transition none k = step_state intake k
transition (some s) k = step_state s k
