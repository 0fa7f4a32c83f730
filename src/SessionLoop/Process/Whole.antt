-- ===== src/SessionLoop/Process/Whole.antt =====
-- `_process_one` and `process_deferred_batch` of agentd/src/agentd/session_loop.py.
use code_workflow.Prelude.{ℕ, ◌+◌, List, [], ◌∷◌}
use code_workflow.Store.Rows.{Delivery}
use code_workflow.Store.Deliveries.{list_deferred}
use code_workflow.SessionLoop.Process.{
  Incoming, World, Outcome, next, finished, raised, ◌▷◌, Outside, TurnRequest,
}
use code_workflow.SessionLoop.Process.Admit.{admit}
use code_workflow.SessionLoop.Process.Events.{Classified, classify}
use code_workflow.SessionLoop.Process.Approvals.{approve_design, approve_feature}
use code_workflow.SessionLoop.Process.Merges.{check_merge}
use code_workflow.SessionLoop.Process.Route.{route_delivery}
use code_workflow.SessionLoop.Process.Heads.{check_heads}
use code_workflow.SessionLoop.Process.Step.{step_delivery}
use code_workflow.SessionLoop.Process.Dispatch.{run_turn}

module _ (o : Outside) where
  -- A delivery whose kind the state machine may see: an approval has been verified.
  unfoldable pub verified_delivery : Incoming → World → Outcome Classified
  unfolding admit classify approve_design approve_feature
  verified_delivery e w = admit o e w ▷ classify o ▷ approve_design o ▷ approve_feature o

  -- What happens to a delivery before a turn; `next` is the turn that it calls for.
  unfoldable pub decide_turn : Incoming → World → Outcome TurnRequest
  unfolding verified_delivery check_merge route_delivery check_heads step_delivery
  decide_turn e w =
      verified_delivery e w ▷ check_merge o ▷ route_delivery o ▷ check_heads o ▷ step_delivery o

  unfoldable pub process_one : Incoming → World → Outcome Unit
  unfolding decide_turn run_turn
  process_one e w = decide_turn e w ▷ run_turn o

  -- The world after a delivery, and 1 unless an exception ended it.
  abbrev pub tally : Outcome Unit → World × ℕ
  tally (next u w) = (w, 1)
  tally (finished w) = (w, 1)
  tally (raised w) = (w, 0)

  abbrev pub add_to : ℕ → World × ℕ → World × ℕ
  add_to n (w, m) = (w, n + m)

  unfoldable pub process_rows : (Delivery → Incoming) → List Delivery → World → World × ℕ
  unfolding process_one
  process_rows read [] w = (w, 0)
  process_rows read (row ∷ rows) w =
      let first = tally (process_one (read row) w) in
      add_to first.1 (process_rows read rows first.0)

  -- `read` is the row with its body read.
  unfoldable pub process_deferred_batch : (Delivery → Incoming) → ℕ → World → World × ℕ
  unfolding process_rows list_deferred
  process_deferred_batch read limit w = process_rows read (list_deferred o.now limit w.store) w
