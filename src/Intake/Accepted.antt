-- ===== src/Intake/Accepted.antt =====
-- Which deliveries the gate of intake.py lets make a session.
use code_workflow.Prelude.{
  ◌≡◌, ◌≢◌, ◌⊎◌, ◌↔◌, inl, inr, String, Option, none, some, true, arith, str_eq, eq_iff, any,
  get_or, Bool-cases, upper,
}
use code_workflow.Payload.{Payload, Envelope}
use code_workflow.Intake.{
  Config, is_collaborator, label_names, association_of, judge_issue, opens_issue, evaluate_intake,
  may_create_session,
}

-- GitHub's association of the author with the repository, in any case of its letters.
abbrev pub IsAssociated : String → Type 0
IsAssociated assoc =
    (upper assoc ≡ "OWNER") ⊎ (upper assoc ≡ "MEMBER") ⊎ (upper assoc ≡ "COLLABORATOR")

is_collaborator_iff : (assoc : String) → (is_collaborator assoc ≡ true) ↔ IsAssociated assoc
is_collaborator_iff assoc = ground (
  arith,
  eq_iff (upper assoc) "OWNER",
  eq_iff (upper assoc) "MEMBER",
  eq_iff (upper assoc) "COLLABORATOR",
)

abbrev pub IsOpening : Option String → Type 0
IsOpening none = ⊥
IsOpening (some action) = (action ≡ "opened") ⊎ (action ≡ "reopened") ⊎ (action ≡ "labeled")

opens_issue_iff : (action : Option String) → (opens_issue action ≡ true) ↔ IsOpening action
opens_issue_iff none = (λ h. cc h, λ h. absurd h)
opens_issue_iff (some action) =
    ground (arith, eq_iff action "opened", eq_iff action "reopened", eq_iff action "labeled")

-- The issue satisfies the configured gate.
abbrev pub IsWelcome : Config → String → Envelope → Type 0
IsWelcome config action e =
    ((config.intake_actors ≢ "collaborators") ⊎ IsAssociated (association_of e))
    × ((config.intake_mode ≢ "label")
        ⊎ (any (str_eq config.intake_label) (label_names e action) ≡ true))

judge_issue-IsWelcome :
    (config : Config) (action : String) (e : Envelope)
    → ((judge_issue config action e).accepted ≡ true) ↔ IsWelcome config action e
unfolding judge_issue
judge_issue-IsWelcome config action e = ground (
  arith,
  eq_iff config.intake_actors "collaborators",
  eq_iff config.intake_mode "label",
  is_collaborator_iff (association_of e),
)

-- The body parses to a welcome issue.
abbrev pub IsWelcomeBody : Config → String → Payload → Type 0
IsWelcomeBody config action none = ⊥
IsWelcomeBody config action (some e) = IsWelcome config action e

-- A delivery may create a session exactly if it is an `issues` event, opened, reopened or labeled,
-- with a body that parses, and the configuration lets it by: where it asks for collaborators, the author
-- is an owner, a member or a collaborator, and where it asks for a label, the issue has it.
pub may_create_session_iff :
    (event : String) (action : Option String) (payload : Payload) (config : Config)
    → (may_create_session event action payload config ≡ true)
      ↔ ((event ≡ "issues") × IsOpening action × IsWelcomeBody config (get_or "" action) payload)
unfolding may_create_session evaluate_intake
may_create_session_iff event action none config =
    ground (arith, eq_iff event "issues", opens_issue_iff action)
may_create_session_iff event action (some e) config =
    let welcome = judge_issue-IsWelcome config (get_or "" action) e in
    elim (Bool-cases (str_eq event "issues")) [
      | inl x ↦ elim (Bool-cases (opens_issue action)) [
        | inl y ↦
            rw (x, y)
              (
                λ h. ((eq_iff event "issues").0 x, (opens_issue_iff action).0 y, welcome.0 h),
                λ k. welcome.1 (k.2),
              )
        | inr y ↦ rw (x, y) (λ h. cc h, λ k. cc (y, (opens_issue_iff action).1 k.1))
      ]
      | inr x ↦ rw x (λ h. cc h, λ k. ground (arith, eq_iff event "issues", k.0))
    ]
