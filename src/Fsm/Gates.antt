-- ===== src/Fsm/Gates.antt =====
-- The gates of the road to AWAITING_VERIFICATION, over any run of events.
use code_workflow.Prelude.{◌≡◌, List, [], ◌∷◌, Option, none, some, refl}
use code_workflow.Fsm.{
  SessionState, EventKind, Transition, intake, planning, design_review, design_rework, implementing,
  paused_human, failed, code_review, code_rework, merging, awaiting_verification, teardown, closed,
  escalation, design_pr_opened, design_merged, feature_pr_opened, merge_authorized, feature_merged,
  transition,
}

abbrev moved : SessionState → Option Transition → SessionState
moved s none = s
moved s (some t) = t.new_state

-- One observed event: `tr = transition(state, kind)`, and `state = tr.new_state` if there is one.
unfoldable pub observe : SessionState → EventKind → SessionState
unfolding transition
observe s k = moved s (transition (some s) k)

unfoldable pub observe_all : SessionState → List EventKind → SessionState
observe_all s [] = s
observe_all s (k ∷ ks) = observe_all (observe s k) ks

-- The gates occur among the events, in this order.
pub data Passes : List EventKind → List EventKind → Type 0 where
  done : {ks : List EventKind} → Passes [] ks
  pass :
      {g k : EventKind} {gs ks : List EventKind} → g ≡ k → Passes gs ks → Passes (g ∷ gs) (k ∷ ks)
  skip : {k : EventKind} {gs ks : List EventKind} → Passes gs ks → Passes gs (k ∷ ks)

drop_gate : {g : EventKind} {gs ks : List EventKind} → Passes (g ∷ gs) ks → Passes gs ks
drop_gate (pass e p) = skip p
drop_gate (skip p) = skip (drop_gate p)

abbrev code_gates : List EventKind
code_gates = feature_pr_opened ∷ merge_authorized ∷ feature_merged ∷ []

abbrev design_gates : List EventKind
design_gates = design_pr_opened ∷ EventKind.design_approved ∷ design_merged ∷ code_gates

-- The gates that a state has still ahead of it; `failed` and the terminal states are left only
-- through the pause, and the pause only for PLANNING.
abbrev pub gates_ahead : SessionState → List EventKind
gates_ahead design_review = EventKind.design_approved ∷ design_merged ∷ code_gates
gates_ahead design_rework = EventKind.design_approved ∷ design_merged ∷ code_gates
gates_ahead SessionState.design_approved = design_merged ∷ code_gates
gates_ahead implementing = code_gates
gates_ahead code_review = merge_authorized ∷ feature_merged ∷ []
gates_ahead code_rework = merge_authorized ∷ feature_merged ∷ []
gates_ahead merging = feature_merged ∷ []
gates_ahead awaiting_verification = []
gates_ahead _ = design_gates

module _ {ks : List EventKind} (p : Passes design_gates ks) where
  from_review : Passes (gates_ahead design_review) ks
  from_review = drop_gate p

  from_approved : Passes (gates_ahead SessionState.design_approved) ks
  from_approved = drop_gate from_review

  from_implementing : Passes code_gates ks
  from_implementing = drop_gate from_approved

  from_code_review : Passes (gates_ahead code_review) ks
  from_code_review = drop_gate from_implementing

  from_merging : Passes (gates_ahead merging) ks
  from_merging = drop_gate from_code_review

ruleset gate_rules = (
  done, pass, skip, from_review, from_approved, from_implementing, from_code_review, from_merging,
)

-- One event passes at most the next gate, and loses none that lies ahead.
gates_ahead-observe :
    (s : SessionState) (k : EventKind) (ks : List EventKind)
    → Passes (gates_ahead (observe s k)) ks
    → Passes (gates_ahead s) (k ∷ ks)
unfolding observe
gates_ahead-observe planning design_pr_opened ks p = pass refl p
gates_ahead-observe intake escalation ks p = search gate_rules
gates_ahead-observe design_review escalation ks p = search gate_rules
gates_ahead-observe design_rework escalation ks p = search gate_rules
gates_ahead-observe SessionState.design_approved escalation ks p = search gate_rules
gates_ahead-observe implementing escalation ks p = search gate_rules
gates_ahead-observe paused_human escalation ks p = search gate_rules
gates_ahead-observe failed escalation ks p = search gate_rules
gates_ahead-observe code_review escalation ks p = search gate_rules
gates_ahead-observe code_rework escalation ks p = search gate_rules
gates_ahead-observe merging escalation ks p = search gate_rules
gates_ahead-observe awaiting_verification escalation ks p = search gate_rules
gates_ahead-observe teardown escalation ks p = search gate_rules
gates_ahead-observe closed escalation ks p = search gate_rules
gates_ahead-observe (SessionState.other t) escalation ks p = search gate_rules
gates_ahead-observe _ _ ks p = search gate_rules

gates_ahead-observe_all :
    (s : SessionState) (ks : List EventKind)
    → observe_all s ks ≡ awaiting_verification
    → Passes (gates_ahead s) ks
unfolding observe_all
gates_ahead-observe_all s [] h = rw h done
gates_ahead-observe_all s (k ∷ ks) h =
    gates_ahead-observe s k ks (gates_ahead-observe_all (observe s k) ks h)

-- Whatever the events, a session that `transition` alone moves from INTAKE and that stands in
-- AWAITING_VERIFICATION has seen, in this order: the Design PR opened, approved and merged, the
-- Feature PR opened, its merge authorized, and the merge.
pub awaiting_needs_gates :
    (ks : List EventKind)
    → observe_all intake ks ≡ awaiting_verification
    → Passes
        (design_pr_opened ∷ EventKind.design_approved ∷ design_merged ∷ feature_pr_opened
          ∷ merge_authorized ∷ feature_merged ∷ [])
        ks
awaiting_needs_gates ks h = gates_ahead-observe_all intake ks h
