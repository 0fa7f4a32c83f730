-- ===== src/Tests/ReconcilerTests.antt =====
-- Passes of the reconciler over a small store.
use code_workflow.Prelude.{
  ℕ, suc, ◌*◌, ◌+◌, ◌≤◌, String, ◌≡◌, refl, map, none, some, List, [], ◌∷◌, true, false, length,
  is_some, Memᴰ,
}
use code_workflow.Prelude.Tables.{select, count_where}
use code_workflow.Fsm.{merging, awaiting_verification}
use code_workflow.Store.Rows.{Store, Session, Turn, Runner}
use code_workflow.Store.Sessions.{
  upsert_session, get_session, live_project_keys, list_nonterminal_sessions,
}
use code_workflow.Store.Escalations.{open_escalation}
use code_workflow.Store.Sessions.Writes.{find}
use code_workflow.Store.Runners.{get_runner}
use code_workflow.Store.Turns.{get_turn, list_open_turns, projects_with_open_turns}
use code_workflow.SessionLoop.{comment}
use code_workflow.SessionLoop.Resuming.{Calls, not_called}
use code_workflow.Reconciler.{Container, new_report, Snapshot, Node, Seams, cid_match}
use code_workflow.Reconciler.Containers.{judge_containers}
use code_workflow.Reconciler.OpenTurns.{handle_open_turns}
use code_workflow.Reconciler.Sweep.{Sweep, note_issue, adopt_merges}
use code_workflow.Reconciler.Pass.{take_inventory, reconcile_once}
use code_workflow.Reconciler.DryRun.{dry_run_lem}
use code_workflow.Reconciler.Totals.{reconcile_once-cap}
use code_workflow.Reconciler.Removals.{is_abandoned, removed_lem}
use code_workflow.Reconciler.Retired.{open_count, handle_open_turns-closes}
use code_workflow.Reconciler.Unpaused.{closed_merged_unpaused}
use code_workflow.Reconciler.Resumes.{fail_once, resume_gives_up}
use code_workflow.Tests.RowTests.{the_session, with_merging, a_turn}

abbrev a_runner : Runner
a_runner = record {
  project_key = "o/r";
  container_id = some "c1";
  endpoint = some "127.0.0.1:99";
  token = some "t";
  tier = "hot";
  last_seen_at = none;
}

abbrev container : String → ℕ → Container
container id started_at = record {
  id = id;
  project = "o/r";
  started_at = started_at;
  running = true;
}

-- The runner's own container, another one, and a third that has just been started.
abbrev three_containers : List Container
three_containers = container "c1" 10 ∷ container "c2" 10 ∷ container "c3" 4990 ∷ []

abbrev a_node : String → Node
a_node id = record { id = id; kind = "comment"; author = "olga"; created_at = some 20; number = 0 }

abbrev merged_and_closed : Snapshot
merged_and_closed = record {
  issue_state = "closed";
  issue_node_id = "I1";
  issue_labels = [];
  feature_merged = true;
  design_merged = false;
  design_head_sha = "";
  feature_head_sha = "";
  nodes = a_node "N1" ∷ a_node "N2" ∷ [];
}

abbrev seams : Seams
seams = record {
  now = 5000;
  resume_max_age_s = 3600;
  list_containers = some three_containers;
  probe_runner = λ r. none;
  fetch_snapshot = some (λ sess. some merged_and_closed);
  breaks_off = λ sess. none;
  fetch_open_prs = none;
  post_comment = some (λ key reason. comment 1);
  inflight_turn = λ id. false;
}

abbrev store : Store
store = record with_merging { runners = a_runner ∷ [] }

two_made : (reconcile_once seams false store).0.synthesized ≡ 2
unfolding reconcile_once upsert_session get_session open_escalation
two_made = refl

-- The sweep of each session ends after its first node, and the ledger keeps the delivery.
one_made :
    (reconcile_once (record seams { breaks_off = λ sess. some 5 }) false store).0.synthesized ≡ 1
unfolding reconcile_once upsert_session get_session open_escalation
one_made = refl

dry_run_example :
    ((reconcile_once seams true store).1 ≡ store)
    × ((reconcile_once seams true store).0.removed ≡ [])
dry_run_example = dry_run_lem seams store

reconcile_once-cap_example :
    let broken =
      count_where (λ y. is_some (seams.breaks_off y)) (list_nonterminal_sessions store) in
    ((reconcile_once seams false store).0.synthesized ≤ 50 * suc broken)
    × (length (reconcile_once seams false store).1.deliveries
        ≤ length store.deliveries + 50 * suc broken)
reconcile_once-cap_example = reconcile_once-cap seams false store

second_removed :
    map (λ (c : Container). c.id) (select (is_abandoned 5000 store) three_containers) ≡ "c2" ∷ []
unfolding cid_match get_runner live_project_keys projects_with_open_turns upsert_session
second_removed = refl

removed_example :
    let judged =
      judge_containers 5000
        (take_inventory 5000 store)
        false
        three_containers
        (new_report (list_open_turns store), []) in
    map (λ e. e.id) judged.0.removed
    ≡ map (λ c. c.id) (select (is_abandoned 5000 store) three_containers)
removed_example = removed_lem 5000 store three_containers

-- A turn that began more than an hour ago.
abbrev with_old_turn : Store
with_old_turn = record with_merging { turns = a_turn ∷ [] }

old_turn_closed :
    open_count "t1" (handle_open_turns seams false (new_report [], with_old_turn)).1 ≡ 0
old_turn_closed =
    handle_open_turns-closes seams (record { turn = a_turn; session_state = some merging })
      (new_report []) with_old_turn old_is_listed (λ e. cc) refl refl
  where
    old_is_listed :
        Memᴰ
          (record { turn = a_turn; session_state = some merging })
          (list_open_turns with_old_turn)
    old_is_listed = unfold list_open_turns in Memᴰ.head refl

abbrev a_sweep : Sweep
a_sweep = record {
  sess = record the_session { state = merging; updated_at = 6 };
  report = new_report [];
  store = with_merging;
  remaining = 50;
}

closed_merged_unpaused_example :
    (u : Session) × (find "o/r#7"
        (adopt_merges seams false merged_and_closed
          (note_issue seams false merged_and_closed a_sweep)).store
      ≡ some u)
    × (u.state ≡ awaiting_verification)
    × (u.resume_state ≡ some merging)
    × (is_some u.paused_reason ≡ true)
closed_merged_unpaused_example =
    closed_merged_unpaused seams a_sweep (λ key reason. comment 1) refl refl refl refl
      merged_and_closed refl refl refl

abbrev calls : Calls
calls = record {
  now = 5003;
  turn_deadline_s = 900;
  turn_resume = λ t host port token. not_called;
  post_comment = λ key reason. comment 2;
}

abbrev new_turn : Turn
new_turn = record a_turn { started_at = 4000; resume_attempts = 0 }

abbrev with_new_turn : Store
with_new_turn = record with_merging { turns = new_turn ∷ [] }

new_is_found : get_turn "t1" with_new_turn ≡ some new_turn
unfolding get_turn
new_is_found = refl

abbrev fail : Store → Store
fail = fail_once seams calls (some merging) (new_report []) "t1"

resume_gives_up_example :
    ((u : Turn) × (get_turn "t1" (fail with_new_turn) ≡ some u)
      × (u.ended_at ≡ none)
      × (u.status ≡ none)
      × (u.resume_attempts ≡ 1))
    × ((u : Turn) × (get_turn "t1" (fail (fail with_new_turn)) ≡ some u)
        × (u.ended_at ≡ some 5003)
        × (u.status ≡ some "interrupted")
        × (u.resume_attempts ≡ 2))
resume_gives_up_example =
    resume_gives_up seams calls (some merging) (new_report []) new_turn with_new_turn new_is_found
      refl refl refl refl refl
