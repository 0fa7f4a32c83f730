-- ===== src/Dispatcher.antt =====
-- agentd/src/agentd/dispatcher.py: one pass over the queued deliveries.
-- The session loop's two batch calls are a parameter. No other thread writes during the pass.
pub mod Drain
use code_workflow.Prelude.{
  ℕ, ◌+◌, String, Option, none, some, List, [], ◌∷◌, Bool, true, false, not, ◌&&◌, ◌||◌,
  if◌then◌else◌, str_eq,
}
use code_workflow.Payload.{Payload}
use code_workflow.Intake.{Config, IntakeResult, evaluate_intake}
use code_workflow.Store.Rows.{Store, Delivery, Status, queued, deferred, done, dropped}
use code_workflow.Store.Deliveries.{list_queued, set_delivery_status}
use code_workflow.Store.Breaker.{is_disk_paused}

abbrev pub status_of : Option IntakeResult → Status
status_of none = deferred
status_of (some r) = if r.accepted then deferred else dropped

-- The status that `_handle` gives a row.
unfoldable pub handled_status : Config → Delivery → Status
handled_status config row =
    if str_eq row.event "ping"
    then done
    else status_of (evaluate_intake row.event row.action row.payload config)

unfoldable pub handle : Config → Delivery → Store → Store
unfolding handled_status
handle config row s = set_delivery_status row.delivery_id (handled_status config row) s

-- `stopped n` is what `_stop.is_set()` gives before the row at place `n`: another thread sets the flag.
unfoldable pub handle_rows : Config → (ℕ → Bool) → ℕ → List Delivery → Store → Store × ℕ
unfolding handle
handle_rows config stopped n [] s = (s, n)
handle_rows config stopped n (row ∷ rows) s =
    let rest = handle_rows config stopped (n + 1) rows (handle config row s) in
    if is_disk_paused s || stopped n then (s, n) else rest

-- The calls of the session loop, each with the number that it returns, `none` where it raises.
pub record SessionBatch : Type 0 where
  pub process_resuming_turns : Store → Store × Option ℕ
  pub process_deferred_batch : ℕ → Store → Store × Option ℕ

abbrev then_deferred : ℕ → Store × Option ℕ → Store × ℕ
then_deferred n (s, none) = (s, n)
then_deferred n (s, some m) = (s, n + m)

-- An exception of the first call skips the second.
abbrev then_batch : SessionBatch → ℕ → Store × Option ℕ → Store × ℕ
then_batch loop n (s, none) = (s, n)
then_batch loop n (s, some m) = then_deferred (n + m) (loop.process_deferred_batch 20 s)

abbrev run_batch : Option SessionBatch → Store × ℕ → Store × ℕ
run_batch none (s, n) = (s, n)
run_batch (some loop) (s, n) =
    if is_disk_paused s then (s, n) else then_batch loop n (loop.process_resuming_turns s)

unfoldable pub drain_once : Config → (ℕ → Bool) → Option SessionBatch → Store → Store × ℕ
unfolding handle_rows
drain_once config stopped session_loop s =
    if is_disk_paused s
    then (s, 0)
    else run_batch session_loop (handle_rows config stopped 0 (list_queued 100 s) s)
