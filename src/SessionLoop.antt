-- ===== src/SessionLoop.antt =====
-- agentd/src/agentd/session_loop.py: how a delivery moves its session in the store.
-- A comment is posted through GitHub, so its outcome is an argument; so is each reading of the clock.
pub mod Pause
pub mod Locks
pub mod StallSignals
pub mod Unarmed
pub mod Recipient
pub mod Kinds
pub mod Privileges
pub mod Process
pub mod Resuming
pub mod Replies
use Prim.Native.String.{◌++◌ as append}
use code_workflow.Prelude.{
  ℕ, zero, suc, String, Option, none, some, List, [], ◌∷◌, ◌++◌, Bool, true, false, not, ◌&&◌, ◌||◌,
  ◌==◌, if◌then◌else◌, str_eq, get_or, lower, strip, starts_with,
}
use code_workflow.Fsm.{
  SessionState, EventKind, Transition, planning, paused_human, closed, is_terminal, transition,
  issue_opened, design_changes_requested, design_approved, merge_design, feature_pr_opened,
  feature_revised, feature_merged, design_pr_opened, design_revised, design_merged,
  code_changes_requested, merge_authorized, feature_approved_unverified,
}
use code_workflow.Store.Rows.{Store, Session, Status, done}
use code_workflow.Store.Deliveries.{set_delivery_status, clear_deferred_clocks}
use code_workflow.Store.Sessions.{SessionView, get_session}
use code_workflow.Store.Sessions.Fields.{Field, update_session_fields}
use code_workflow.Store.Escalations.{open_escalation, close_escalation}
use code_workflow.Store.Blocks.{close_project_block}

-- f(bool) of the two tuples of `_pick_recipient`
pub data Role : Type 0 where
  architect developer : Role

abbrev pub role_of_kind : EventKind → Option Role
role_of_kind issue_opened = some architect
role_of_kind design_changes_requested = some architect
role_of_kind EventKind.design_approved = some architect
role_of_kind merge_design = some architect
role_of_kind feature_pr_opened = some architect
role_of_kind feature_revised = some architect
role_of_kind feature_merged = some architect
role_of_kind design_pr_opened = some developer
role_of_kind design_revised = some developer
role_of_kind design_merged = some developer
role_of_kind code_changes_requested = some developer
role_of_kind merge_authorized = some developer
role_of_kind feature_approved_unverified = some developer
role_of_kind _ = none

-- The role and its login; by default the role that is not the sender's.
unfoldable pub pick_recipient : EventKind → String → String → String → Role × String
pick_recipient kind architect_login developer_login sender =
    let role =
      get_or (if str_eq (lower sender) (lower architect_login) then developer else architect)
        (role_of_kind kind) in
    (role, elim role [ architect ↦ architect_login | developer ↦ developer_login ])

abbrev pub close_reconcile_prefix : String
close_reconcile_prefix = "close-reconcile:"

abbrev is_paused : SessionState → Bool
is_paused paused_human = true
is_paused _ = false

unfoldable pub close_reconcile_held : SessionState → Session → Bool
close_reconcile_held state sess =
    is_paused state && starts_with (get_or "" sess.paused_reason) close_reconcile_prefix

-- s[:n]
abbrev pub clip : ℕ → String → String
clip zero s = ""
clip (suc n) String.[] = ""
clip (suc n) (String.◌∷◌ c s) = String.◌∷◌ c (clip n s)

-- What posting a comment gives: its id, or the text of the exception.
pub data Posted : Type 0 where
  comment : ℕ → Posted
  post_failed : String → Posted

abbrev posted_id : Posted → Option ℕ
posted_id (comment n) = some n
posted_id (post_failed exc) = none

abbrev posted_reason : String → Posted → String
posted_reason reason (comment n) = reason
posted_reason reason (post_failed exc) =
    append reason (append " [comment_post_failed: " (append exc "]"))

-- `prev_state`: a session that is paused already keeps the state it was paused in
abbrev pub resume_or_planning : Option SessionState → SessionState
resume_or_planning r = get_or planning r

abbrev pub prev_state : Session → SessionState
prev_state x = if is_paused x.state then resume_or_planning x.resume_state else x.state

abbrev pub pause_fields : String → Bool → SessionState → List Field
pause_fields reason hold prev =
    Field.state paused_human
    ∷ Field.paused_reason
        (some (clip 500 (if hold then append close_reconcile_prefix reason else reason)))
    ∷ Field.resume_state (some prev)
    ∷ []

abbrev is_closed : SessionState → Bool
is_closed closed = true
is_closed _ = false

abbrev pause_session :
    ℕ → String → String → String → Posted → Bool → SessionState → Store → Option Store
pause_session now key role reason posted hold prev s =
    let reason' = posted_reason reason posted in
    update_session_fields now key (pause_fields reason' hold prev)
      (open_escalation now key (some role) reason' (posted_id posted) s).0

-- A session that is not stored reads as an empty dictionary, whose state is PLANNING. `none` would be
-- the ValueError of `update_session_fields`.
abbrev escalate_found :
    ℕ → String → String → String → Posted → Bool → Store → Option SessionView → Option Store
escalate_found now key role reason posted hold s none =
    pause_session now key role reason posted hold planning s
escalate_found now key role reason posted hold s (some v) =
    if is_closed v.session.state
    then some s
    else pause_session now key role reason posted hold (prev_state v.session) s

unfoldable pub escalate : ℕ → String → String → String → Posted → Bool → Store → Option Store
escalate now key role reason posted hold s =
    escalate_found now key role reason posted hold s (get_session key s)

-- resume_state, with PAUSED_HUMAN itself replaced
abbrev pub resume_target : Session → SessionState
resume_target x =
    if is_paused (resume_or_planning x.resume_state)
    then planning
    else resume_or_planning x.resume_state

abbrev pub resume_fields : SessionState → List Field
resume_fields target =
    Field.state target
    ∷ Field.paused_reason none
    ∷ Field.resume_state none
    ∷ Field.consec_agent_turns 0
    ∷ Field.silent_turns 0
    ∷ []

-- sess["project_key"], or `project_key_from_repo` of the repository
abbrev pub project_of : Session → String
project_of sess = if str_eq sess.project_key "" then strip sess.repo else sess.project_key

abbrev unblock : ℕ → String → Store → Store
unblock now project_key s =
    if str_eq project_key "" then s else (close_project_block now project_key s).0

-- The writes of `_resume_from_escalation` before it asks the supervisor for a runner; `sess` is the
-- row as it was read when the delivery was taken up.
unfoldable pub resume_from_escalation : ℕ → Session → String → Store → Option Store
resume_from_escalation now sess delivery_id s =
    if is_terminal sess.state
    then some (set_delivery_status delivery_id done s)
    else update_session_fields now sess.session_key (resume_fields (resume_target sess)) (
        unblock now (project_of sess)
          (clear_deferred_clocks (close_escalation now sess.session_key none none s).0))

-- The fields of the FSM step of `_process_one`; `pr` is the digest's number, absent when it is 0.
abbrev lock_field : Bool → List Field
lock_field true = Field.roles_locked 1 ∷ []
lock_field false = []

abbrev pr_field : EventKind → Option ℕ → List Field
pr_field design_pr_opened (some n) = Field.design_pr (some n) ∷ []
pr_field feature_pr_opened (some n) = Field.feature_pr (some n) ∷ []
pr_field _ _ = []

abbrev pub step_fields : EventKind → Option ℕ → Transition → List Field
step_fields kind pr tr = Field.state tr.new_state ∷ (lock_field tr.freeze_roles ++ pr_field kind pr)

abbrev write_step : ℕ → String → EventKind → Option ℕ → Store → Option Transition → Option Store
write_step now key kind pr s none = some s
write_step now key kind pr s (some tr) = update_session_fields now key (step_fields kind pr tr) s

unfoldable pub advance : ℕ → String → SessionState → EventKind → Option ℕ → Store → Option Store
advance now key state kind pr s = write_step now key kind pr s (transition (some state) kind)
