-- ===== src/Tests/FsmTests.antt =====
-- agentd/src/agentd/fsm.py on a session that goes all the way.
use code_workflow.Prelude.{◌≡◌, refl, some, List, [], ◌∷◌, true, false}
use code_workflow.Fsm.{
  EventKind, Transition, intake, implementing, paused_human, teardown, closed,
  awaiting_verification, escalation, issues_closed, session_created, design_pr_opened,
  design_merged, feature_pr_opened, merge_authorized, feature_merged, is_terminal, transition,
}
use code_workflow.Fsm.Gates.{observe, observe_all, Passes, awaiting_needs_gates}

abbrev whole_road : List EventKind
whole_road =
    session_created ∷ design_pr_opened ∷ EventKind.design_approved ∷ design_merged
    ∷ feature_pr_opened ∷ merge_authorized ∷ feature_merged ∷ []

road_ends : observe_all intake whole_road ≡ awaiting_verification
unfolding observe_all observe transition
road_ends = refl

awaiting_needs_gates_example :
    Passes
      (design_pr_opened ∷ EventKind.design_approved ∷ design_merged ∷ feature_pr_opened
        ∷ merge_authorized ∷ feature_merged ∷ [])
      whole_road
awaiting_needs_gates_example = awaiting_needs_gates whole_road road_ends

abbrev to_pause : Transition
to_pause = record { new_state = paused_human; freeze_roles = false; note = "escalate.human" }

closed_escalates : transition (some closed) escalation ≡ some to_pause
unfolding transition
closed_escalates = refl

closed_is_terminal : is_terminal closed ≡ true
unfolding is_terminal
closed_is_terminal = refl

abbrev to_teardown : Transition
to_teardown = record { new_state = teardown; freeze_roles = false; note = "owner closed issue" }

owner_closes : transition (some implementing) issues_closed ≡ some to_teardown
unfolding transition
owner_closes = refl
