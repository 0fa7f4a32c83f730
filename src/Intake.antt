-- ===== src/Intake.antt =====
-- agentd/src/agentd/intake.py: the gate before an issue makes a session.
-- A text that the source builds for the log is a constructor of `IntakeReason`.
pub mod Accepted
use code_workflow.Prelude.{
  ◌≡◌, String, Option, none, some, List, [], ◌∷◌, Bool, true, false, not, ◌&&◌, ◌||◌, if◌then◌else◌,
  str_eq, any, get_or, upper,
}
use code_workflow.Payload.{Payload, Envelope, Label, named, text, junk}

-- The settings that the gate reads.
pub record Config : Type 0 where
  pub intake_actors : String
  pub intake_mode : String
  pub intake_label : String

pub data IntakeReason : Type 0 where
  unparseable : IntakeReason
  actor_rejected label_missing : String → IntakeReason
  intake_pass : IntakeReason

pub record IntakeResult : Type 0 where
  pub accepted : Bool
  pub reason : IntakeReason

-- assoc.upper() in _COLLAB_ASSOC
abbrev pub is_collaborator : String → Bool
is_collaborator assoc = any (str_eq (upper assoc)) ("OWNER" ∷ "MEMBER" ∷ "COLLABORATOR" ∷ [])

abbrev pub label_name : Label → List String → List String
label_name (named none) names = names
label_name (named (some name)) names = name ∷ names
label_name (text name) names = name ∷ names
label_name junk names = names

abbrev pub names_of : List Label → List String
names_of [] = []
names_of (l ∷ ls) = label_name l (names_of ls)

abbrev new_label : Option Label → List String → List String
new_label none names = names
new_label (some l) names = label_name l names

-- The set of names as a list of them.
unfoldable pub label_names : Envelope → String → List String
label_names e action =
    let names = names_of e.issue_labels in
    if str_eq action "labeled" then new_label e.label names else names

-- `issue.get(…) or data.get(…) or ""`
abbrev pub association_of : Envelope → String
association_of e = get_or (get_or "" e.association) e.issue_association

unfoldable pub judge_issue : Config → String → Envelope → IntakeResult
unfolding label_names
judge_issue config action e =
    let assoc = association_of e in
    if str_eq config.intake_actors "collaborators" && not (is_collaborator assoc)
    then record { accepted = false; reason = actor_rejected assoc }
    else if str_eq config.intake_mode "label"
        && not (any (str_eq config.intake_label) (label_names e action))
    then record { accepted = false; reason = label_missing config.intake_label }
    else record { accepted = true; reason = intake_pass }

abbrev judge_payload : Config → String → Payload → IntakeResult
judge_payload config action none = record { accepted = false; reason = unparseable }
judge_payload config action (some e) = judge_issue config action e

-- action not in ("opened", "reopened", "labeled"), None included
abbrev pub opens_issue : Option String → Bool
opens_issue none = false
opens_issue (some action) = any (str_eq action) ("opened" ∷ "reopened" ∷ "labeled" ∷ [])

-- `none` where the gate does not apply to the event
unfoldable pub evaluate_intake : String → Option String → Payload → Config → Option IntakeResult
unfolding judge_issue
evaluate_intake event action payload config =
    if not (str_eq event "issues")
    then none
    else if not (opens_issue action)
    then none
    else some (judge_payload config (get_or "" action) payload)

abbrev was_accepted : Option IntakeResult → Bool
was_accepted none = false
was_accepted (some r) = r.accepted

-- `_may_create_session` of session_loop.py
unfoldable pub may_create_session : String → Option String → Payload → Config → Bool
may_create_session event action payload config =
    was_accepted (evaluate_intake event action payload config)
