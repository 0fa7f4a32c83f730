-- ===== src/SessionLoop/Kinds.antt =====
-- `_event_kind` of agentd/src/agentd/session_loop.py.
-- The data of an event is what the function reads of it; whether the branch of the pull request is that
-- of a design or of a feature is told by `_is_design_pr` and `_is_feature_pr`, as two fields.
use Prim.Native.String.{◌++◌ as append}
use code_workflow.Prelude.{
  String, Option, none, some, Bool, false, ◌&&◌, ◌||◌, if◌then◌else◌, str_eq, get_or, lower, upper,
}
use code_workflow.Fsm.{
  EventKind, issue_opened, design_pr_opened, feature_pr_opened, design_revised, feature_revised,
  design_merged, feature_merged, code_changes_requested, design_changes_requested,
  feature_approved_unverified, design_approved_unverified, owner_reply,
}

pub record EventData : Type 0 where
  pub is_design : Bool
  pub is_feature : Bool
  -- pr["merged"] is truthy
  pub merged : Bool
  -- review["state"]
  pub review_state : Option String

abbrev pub is_action : Option String → String → Bool
is_action none name = false
is_action (some a) name = str_eq a name

abbrev pub pull_request_kind : Option String → EventData → Option EventKind
pull_request_kind action d =
    if is_action action "opened" && d.is_design
    then some design_pr_opened
    else if is_action action "opened" && d.is_feature
    then some feature_pr_opened
    else if is_action action "synchronize" && d.is_design
    then some design_revised
    else if is_action action "synchronize" && d.is_feature
    then some feature_revised
    else if is_action action "closed" && d.merged && d.is_design
    then some design_merged
    else if is_action action "closed" && d.merged && d.is_feature
    then some feature_merged
    else none

abbrev pub review_kind : EventData → Option EventKind
review_kind d =
    let st = upper (get_or "" d.review_state) in
    if str_eq st "CHANGES_REQUESTED" && d.is_feature
    then some code_changes_requested
    else if str_eq st "CHANGES_REQUESTED" && d.is_design
    then some design_changes_requested
    else if str_eq st "APPROVED" && d.is_feature
    then some feature_approved_unverified
    else if str_eq st "APPROVED" && d.is_design
    then some design_approved_unverified
    else none

-- f"{event}.{action or 'none'}"
abbrev pub plain_kind : String → Option String → EventKind
plain_kind event action = EventKind.other (append event (append "." (get_or "none" action)))

abbrev pub is_owner_comment : String → Option String → String → String → Bool
is_owner_comment event action sender owner =
    str_eq event "issue_comment"
    && is_action action "created"
    && str_eq (lower sender) (lower owner)

-- `owner` is `config.owner`. An action is `none` where it is absent or empty.
unfoldable pub event_kind : String → Option String → EventData → String → String → EventKind
event_kind event action d sender owner =
    if str_eq event "issues"
      && (is_action action "opened" || is_action action "reopened" || is_action action "labeled")
    then issue_opened
    else get_or
        (if is_owner_comment event action sender owner
          then owner_reply
          else plain_kind event action)
        (if str_eq event "pull_request"
          then pull_request_kind action d
          else if str_eq event "pull_request_review"
          then review_kind d
          else none)
