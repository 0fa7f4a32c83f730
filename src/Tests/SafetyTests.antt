-- ===== src/Tests/SafetyTests.antt =====
-- agentd/src/agentd/loop_safety.py and governor.py on short runs.
use code_workflow.Prelude.{
  ℕ, ◌<◌, ◌≤◌, ◌≡◌, ◌≢◌, ◌↔◌, refl, Option, none, some, List, [], ◌∷◌, true, false, arith,
}
use code_workflow.LoopSafety.{StallTracker, new_stall, observe_fingerprint, new_budget, breach}
use code_workflow.LoopSafety.Budget.{
  BudgetEvent, agent_turn, owner_event, budget_run, agent_turns, trailing_turns, budget_run-breach,
}
use code_workflow.LoopSafety.Stall.{Observation, repeat_at, IsArmedAt, repeated_fingerprint_signals}
use code_workflow.Store.Rows.{empty_store}
use code_workflow.Store.Breaker.{is_disk_paused}
use code_workflow.Governor.{Limits}
use code_workflow.Governor.Latch.{samples, latch, samples-latch}

abbrev three_events : List BudgetEvent
three_events = agent_turn ∷ owner_event ∷ agent_turn ∷ []

budget_run-breach_example :
    (breach (budget_run new_budget three_events) ≡ none)
    ↔ ((agent_turns three_events < 40) × (trailing_turns 0 three_events < 30))
budget_run-breach_example = budget_run-breach three_events

abbrev same_head : List Observation
same_head = ("f", none) ∷ ("f", some "h") ∷ ("f", some "h") ∷ ("f", some "h") ∷ []

abbrev armed_tracker : StallTracker
armed_tracker = record new_stall {
  last_fp = some "f";
  fp_repeat = 1;
  last_head = some "h2";
  seen_head_change = true;
}

IsArmedAt-f : IsArmedAt "f" armed_tracker
IsArmedAt-f = record { armed = refl; same = refl; head_known = λ e. cc e }

repeated_fingerprint_signals_example :
    ((observe_fingerprint (repeat_at armed_tracker "f" ("h3" ∷ [])) "f" (some "h4")).1 ≢ none)
    ↔ (3 ≤ 3)
repeated_fingerprint_signals_example =
    repeated_fingerprint_signals armed_tracker "f" ("h3" ∷ []) "h4" IsArmedAt-f

abbrev some_limits : Limits
some_limits = record {
  floor = 15;
  resume = 20;
  trip_reason = λ n. "below the floor";
  reset_reason = λ n. "above the resume level";
}

-- A trip, a reading between the limits, one that fails, a reset and a second trip.
abbrev five_readings : List (ℕ × Option ℕ)
five_readings = (1, some 10) ∷ (2, some 17) ∷ (3, none) ∷ (4, some 25) ∷ (5, some 3) ∷ []

samples-latch_example :
    (is_disk_paused (samples some_limits five_readings empty_store).0
      ≡ (latch some_limits (is_disk_paused empty_store) five_readings).0)
    × ((samples some_limits five_readings empty_store).1
        ≡ (latch some_limits (is_disk_paused empty_store) five_readings).1)
samples-latch_example = samples-latch some_limits five_readings empty_store refl (omega arith)

latch_run : latch some_limits false five_readings ≡ (true, 2)
latch_run = refl
