-- ===== src/LoopSafety/Budget.antt =====
-- The budgets of loop_safety.py over sequences of agent turns and owner events.
use code_workflow.Prelude.{ℕ, suc, ◌+◌, ◌<◌, ◌≡◌, ◌↔◌, refl, none, List, [], ◌∷◌, arith}
use code_workflow.LoopSafety.{BudgetState, new_budget, after_agent_turn, after_owner, breach}

-- No breach is reported exactly while all three counters are below their limits.
pub breach-none :
    (b : BudgetState)
    → (breach b ≡ none) ↔ (
        (b.turn_count < b.max_turns)
        × (b.consec_agent_turns < b.max_consec_agent)
        × (b.review_rounds < b.max_review_rounds))
unfolding breach
breach-none b = (λ h. ground arith, λ h. ground arith)

pub data BudgetEvent : Type 0 where
  agent_turn owner_event : BudgetEvent

unfoldable pub budget_step : BudgetState → BudgetEvent → BudgetState
unfolding after_agent_turn after_owner
budget_step b agent_turn = after_agent_turn b
budget_step b owner_event = after_owner b

unfoldable pub budget_run : BudgetState → List BudgetEvent → BudgetState
unfolding budget_step
budget_run b [] = b
budget_run b (e ∷ es) = budget_run (budget_step b e) es

abbrev pub agent_turns : List BudgetEvent → ℕ
agent_turns [] = 0
agent_turns (agent_turn ∷ es) = suc (agent_turns es)
agent_turns (owner_event ∷ es) = agent_turns es

-- the agent turns at the end of the sequence, with no owner event after them, from `n` before it
abbrev pub trailing_turns : ℕ → List BudgetEvent → ℕ
trailing_turns n [] = n
trailing_turns n (agent_turn ∷ es) = trailing_turns (n + 1) es
trailing_turns n (owner_event ∷ es) = trailing_turns 0 es

turn_count-budget_run :
    (b : BudgetState) (es : List BudgetEvent)
    → (budget_run b es).turn_count ≡ b.turn_count + agent_turns es
unfolding budget_run
turn_count-budget_run b [] = omega arith
turn_count-budget_run b (agent_turn ∷ es) =
    omega (arith, turn_count-budget_run (after_agent_turn b) es)
turn_count-budget_run b (owner_event ∷ es) = omega (arith, turn_count-budget_run (after_owner b) es)

consec-budget_run :
    (b : BudgetState) (es : List BudgetEvent)
    → (budget_run b es).consec_agent_turns ≡ trailing_turns b.consec_agent_turns es
unfolding budget_run
consec-budget_run b [] = refl
consec-budget_run b (agent_turn ∷ es) = consec-budget_run (after_agent_turn b) es
consec-budget_run b (owner_event ∷ es) = consec-budget_run (after_owner b) es

limits-budget_run :
    (b : BudgetState) (es : List BudgetEvent)
    → ((budget_run b es).max_turns ≡ b.max_turns)
      × ((budget_run b es).max_consec_agent ≡ b.max_consec_agent)
      × ((budget_run b es).max_review_rounds ≡ b.max_review_rounds)
      × ((budget_run b es).review_rounds ≡ b.review_rounds)
unfolding budget_run
limits-budget_run b [] = (refl, refl, refl, refl)
limits-budget_run b (agent_turn ∷ es) = limits-budget_run (after_agent_turn b) es
limits-budget_run b (owner_event ∷ es) = limits-budget_run (after_owner b) es

-- From the defaults, after any sequence of agent turns and owner events: no breach is reported
-- exactly while fewer than 40 agent turns have run and fewer than 30 since the last owner event.
pub budget_run-breach :
    (es : List BudgetEvent)
    → (breach (budget_run new_budget es) ≡ none)
      ↔ ((agent_turns es < 40) × (trailing_turns 0 es < 30))
budget_run-breach es =
    let b = budget_run new_budget es in
    let fields = limits-budget_run new_budget es in
    (
      λ h. omega (
        arith,
        (breach-none b).0 h,
        fields,
        turn_count-budget_run new_budget es,
        consec-budget_run new_budget es,
      ),
      λ h. (breach-none b).1 (
          omega
            (arith, fields, turn_count-budget_run new_budget es, consec-budget_run new_budget es)),
    )
