-- ===== src/Reconciler/Pass.antt =====
-- `reconcile_once` of agentd/src/agentd/reconciler.py: a whole pass. The nudge of the dispatcher at its
-- end changes nothing here.
use code_workflow.Prelude.{ℕ, Option, none, some, List, [], Bool, true, map}
use code_workflow.Store.Rows.{Store}
use code_workflow.Store.Sessions.{live_project_keys}
use code_workflow.Store.Runners.{list_runners}
use code_workflow.Store.Turns.{list_open_turns, projects_with_open_turns}
use code_workflow.Reconciler.{inflight_turn_max_age_s, Container, Report, new_report, Seams}
use code_workflow.Reconciler.Containers.{
  Inventory, Targets, judge_containers, clear_runners, probe_attachments,
}
use code_workflow.Reconciler.OpenTurns.{handle_open_turns}
use code_workflow.Reconciler.Github.{sweep_github}

unfoldable pub take_inventory : ℕ → Store → Inventory
unfolding live_project_keys projects_with_open_turns list_runners
take_inventory now s = record {
  live = live_project_keys s;
  inflight = projects_with_open_turns now inflight_turn_max_age_s s;
  runners = list_runners s;
}

module _ (x : Seams) (dry_run : Bool) where
  -- the sweep and the open turns, which a pass without an inventory does too
  unfoldable pub finish_pass : Report × Store → Report × Store
  unfolding sweep_github handle_open_turns
  finish_pass rs = handle_open_turns x dry_run (sweep_github x dry_run rs)

  unfoldable pub attach : Inventory → List Container → Store → Report × Targets → Report × Store
  unfolding clear_runners probe_attachments
  attach inv cs s (r, ts) =
      probe_attachments x inv dry_run ts
        (clear_runners dry_run (map (λ c. c.id) cs) inv.runners (r, s))

  unfoldable pub pass_with : Option (List Container) → Report → Store → Report × Store
  unfolding take_inventory judge_containers attach finish_pass
  pass_with none r s = finish_pass (record r { inventory_error = true }, s)
  pass_with (some cs) r s =
      let inv = take_inventory x.now s in
      finish_pass (attach inv cs s (judge_containers x.now inv dry_run cs (r, [])))

  unfoldable pub reconcile_once : Store → Report × Store
  unfolding pass_with list_open_turns
  reconcile_once s = pass_with x.list_containers (new_report (list_open_turns s)) s
