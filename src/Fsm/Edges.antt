-- ===== src/Fsm/Edges.antt =====
-- Which transitions of fsm.py enter and leave the terminal states, and where the roles freeze.
use code_workflow.Prelude.{◌≡◌, ◌↔◌, true, false, some, arith}
use code_workflow.Fsm.{
  SessionState, EventKind, Transition, planning, paused_human, teardown, escalation, issues_closed,
  design_pr_opened, is_terminal, transition,
}

-- A transition from a terminal state is that of an escalation, and leads to the pause.
pub terminal-exit :
    (s : SessionState) (k : EventKind) (t : Transition)
    → is_terminal s ≡ true
    → transition (some s) k ≡ some t
    → (k ≡ escalation) × (t.new_state ≡ paused_human)
unfolding transition
terminal-exit s k t h e = ground arith

-- A transition leads to TEARDOWN exactly if its event is `issues_closed` and its state is not
-- terminal.
pub teardown-entry :
    (s : SessionState) (k : EventKind) (t : Transition)
    → transition (some s) k ≡ some t
    → (t.new_state ≡ teardown) ↔ ((k ≡ issues_closed) × (is_terminal s ≡ false))
unfolding transition
teardown-entry s k t e = (λ h. ground arith, λ h. ground arith)

-- Roles freeze exactly where a Design PR opens in PLANNING.
pub freeze-entry :
    (s : SessionState) (k : EventKind) (t : Transition)
    → transition (some s) k ≡ some t
    → (t.freeze_roles ≡ true) ↔ ((s ≡ planning) × (k ≡ design_pr_opened))
unfolding transition
freeze-entry s k t e = (λ h. ground arith, λ h. ground arith)
