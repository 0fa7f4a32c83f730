-- ===== src/Reconciler/Containers.antt =====
-- The containers and the runners' rows in `reconcile_once` of agentd/src/agentd/reconciler.py, and
-- `_probe_attachments`.
use code_workflow.Prelude.{
  ℕ, String, Option, none, some, List, [], ◌∷◌, ◌++◌, Bool, false, not, ◌&&◌, ◌||◌, if◌then◌else◌,
  str_eq, any, get_or,
}
use code_workflow.Prelude.Int.{sub_ℕ}
use code_workflow.Store.Rows.{Store, Runner}
use code_workflow.Store.Runners.{is_runner_of, delete_runner, touch_runner_seen}
use code_workflow.Reconciler.{
  Container, Action, keep, spare, remove, missing_runner, Decision, cid_match, decide, Entry,
  StaleRunner, ProbeResult, Attached, Report, Seams,
}

-- What is read of the store before the first container: the live projects, those with an open turn,
-- and the rows of the runners, by project.
pub record Inventory : Type 0 where
  pub live : String → Bool
  pub inflight : String → Bool
  pub runners : List Runner

-- `runners.get(pk) if pk else None`; a project has one row
abbrev pub runner_in : String → List Runner → Option Runner
runner_in pk [] = none
runner_in pk (r ∷ rs) =
    let rest = runner_in pk rs in if not (str_eq pk "") && is_runner_of pk r then some r else rest

-- The projects that will be probed, in the order of their first kept container.
abbrev pub Targets : Type 0
Targets = List (String × Container)

abbrev pub has_target : String → Targets → Bool
has_target pk [] = false
has_target pk ((k, c) ∷ ts) = str_eq k pk || has_target pk ts

-- probe_targets.setdefault(pk, c)
abbrev pub add_target : Container → Targets → Targets
add_target c ts =
    if str_eq c.project "" || has_target c.project ts then ts else ts ++ (c.project, c) ∷ []

abbrev pub add_removed : Bool → Entry → Report → Report
add_removed dry_run e r = if dry_run then r else record r { removed = r.removed ++ e ∷ [] }

abbrev pub place : Bool → Action → Entry → Container → Report × Targets → Report × Targets
place dry_run keep e c (r, ts) = (r, add_target c ts)
place dry_run spare e c (r, ts) = (record r { spared = r.spared ++ e ∷ [] }, ts)
place dry_run remove e c (r, ts) =
    (add_removed dry_run e (record r { orphans = r.orphans ++ e ∷ [] }), ts)
place dry_run missing_runner e c (r, ts) =
    (add_removed dry_run e (record r { missing_runners = r.missing_runners ++ e ∷ [] }), ts)

unfoldable pub decision_on : ℕ → Inventory → Container → Decision
unfolding decide
decision_on now inv c =
    decide now c (not (str_eq c.project "") && inv.live c.project)
      (not (str_eq c.project "") && inv.inflight c.project) (runner_in c.project inv.runners)

unfoldable pub entry_of : ℕ → Inventory → Container → Entry
unfolding decision_on
entry_of now inv c = record {
  id = c.id;
  project = c.project;
  age_s = sub_ℕ now c.started_at;
  action = (decision_on now inv c).action;
  reason = (decision_on now inv c).reason;
}

unfoldable pub judge_containers :
    ℕ → Inventory → Bool → List Container → Report × Targets → Report × Targets
unfolding decision_on entry_of
judge_containers now inv dry_run [] rt = rt
judge_containers now inv dry_run (c ∷ cs) rt =
    judge_containers now inv dry_run cs
      (place dry_run (decision_on now inv c).action (entry_of now inv c) c rt)

-- rid and not any(_cid_match(rid, sid) for sid in seen_ids if sid)
abbrev pub is_stale : List String → Runner → Bool
is_stale seen_ids r =
    let rid = get_or "" r.container_id in
    not (str_eq rid "") && not (any (λ sid. not (str_eq sid "") && cid_match rid sid) seen_ids)

abbrev stale_of : Runner → StaleRunner
stale_of r = record { project = r.project_key; container_id = get_or "" r.container_id }

abbrev clear_stale : Bool → Runner → Report × Store → Report × Store
clear_stale dry_run row (r, s) =
    let r' = record r { stale_runners = r.stale_runners ++ stale_of row ∷ [] } in
    if dry_run then (r', s) else (
      record r' { cleared_rows = r'.cleared_rows ++ stale_of row ∷ [] },
      (delete_runner row.project_key s).0,
    )

unfoldable pub clear_runners : Bool → List String → List Runner → Report × Store → Report × Store
unfolding cid_match delete_runner
clear_runners dry_run seen_ids [] rs = rs
clear_runners dry_run seen_ids (row ∷ rows) rs =
    clear_runners dry_run seen_ids rows
      (if is_stale seen_ids row then clear_stale dry_run row rs else rs)

abbrev record_unattached : String → String → String → Report → Report
record_unattached project container_id reason r = record r {
  unattached =
      r.unattached ++ record { project = project; id = container_id; reason = reason } ∷ [];
}

abbrev probed : ℕ → Bool → String → Container → Option ProbeResult → Report × Store → Report × Store
probed now dry_run pk c none (r, s) = (record_unattached pk c.id "probe_error" r, s)
probed now dry_run pk c (some res) (r, s) =
    let entry : Attached = record {
      project = pk;
      id = c.id;
      reason = res.reason;
      payload = res.payload;
    } in
    if not res.serviceable then (record_unattached pk c.id res.reason r, s) else (
      record r { attached = r.attached ++ entry ∷ [] },
      (if dry_run then s else (touch_runner_seen now pk (some now) s).0),
    )

abbrev skip_probe : String → Container → Report → Report
skip_probe pk c r = record r {
  probe_skipped = r.probe_skipped ++ record { project = pk; id = c.id; reason = "open turn" } ∷ [];
}

abbrev probe_row :
    Seams → Bool → String → Container → Option Runner → Report × Store → Report × Store
probe_row x dry_run pk c none rs = rs
probe_row x dry_run pk c (some row) (r, s) =
    if not c.running
    then (record_unattached pk c.id "stopped" r, s)
    else probed x.now dry_run pk c (x.probe_runner row) (r, s)

abbrev probe_target :
    Seams → Inventory → Bool → String → Container → Report × Store → Report × Store
probe_target x inv dry_run pk c (r, s) =
    if inv.inflight pk
    then (skip_probe pk c r, s)
    else probe_row x dry_run pk c (runner_in pk inv.runners) (r, s)

unfoldable pub probe_attachments :
    Seams → Inventory → Bool → Targets → Report × Store → Report × Store
unfolding touch_runner_seen
probe_attachments x inv dry_run [] rs = rs
probe_attachments x inv dry_run ((pk, c) ∷ ts) rs =
    probe_attachments x inv dry_run ts (probe_target x inv dry_run pk c rs)
