-- ===== src/Tests/RowTests.antt =====
-- The sessions, turns, artifacts, escalations and blocks of agentd/src/agentd/db.py on small stores.
use code_workflow.Prelude.{◌≡◌, ◌≢◌, refl, String, none, some, [], ◌∷◌, strip, eq_iff}
use code_workflow.Fsm.{planning, merging}
use code_workflow.Store.Rows.{Store, Session, Turn, ProjectBlock, empty_store}
use code_workflow.Store.Sessions.{NewSession, inserted, upsert_session}
use code_workflow.Store.Sessions.Fields.{Field, update_session_fields}
use code_workflow.Store.Sessions.Writes.{find}
use code_workflow.Store.Turns.{get_turn, finish_turn, mark_turn_resuming, clear_turn_resuming}
use code_workflow.Store.Turns.Lifecycle.{ended_turn_frozen}
use code_workflow.Store.Artifacts.{register_artifact, row_id}
use code_workflow.Store.Artifacts.Ledger.{register_artifact_again}
use code_workflow.Store.Blocks.{block_row, get_open_project_block}

abbrev pub a_session : NewSession
a_session = record {
  session_key = "o/r#7";
  repo = "o/r";
  issue_num = 7;
  state = planning;
  architect = "alice";
  developer = "bob";
  created_at = 1;
  updated_at = 1;
  project_key = none;
  paused_reason = none;
  roles_locked = none;
  design_pr = none;
  turn_count = none;
  consec_agent_turns = none;
  review_rounds = none;
  progress_fp = none;
  progress_repeat = none;
  zero_thread_rounds = none;
}

abbrev pub one_session : Store
one_session = upsert_session a_session empty_store

abbrev pub the_session : Session
the_session = inserted a_session

pub found_session : find "o/r#7" one_session ≡ some the_session
unfolding upsert_session
found_session = refl

abbrev pub with_merging : Store
with_merging = record one_session {
  sessions = record the_session { state = merging; updated_at = 6 } ∷ [];
}

update_merging :
    update_session_fields 6 "o/r#7" (Field.state merging ∷ []) one_session ≡ some with_merging
unfolding update_session_fields upsert_session
update_merging = refl

another_key : ◌≢◌ {A = String} "o/r#7" "o/r#8"
another_key e = cc ((eq_iff "o/r#7" "o/r#8").1 e)

abbrev pub a_turn : Turn
a_turn = record {
  turn_id = "t1";
  session_key = "o/r#7";
  role = "architect";
  delivery_id = some "d1";
  started_at = 3;
  ended_at = none;
  status = none;
  summary = none;
  public_actions = none;
  resume_attempts = 1;
}

abbrev with_turn : Turn → Store
with_turn t = record empty_store { turns = t ∷ [] }

abbrev ended_turn : Turn
ended_turn = record a_turn { ended_at = some 8; status = some "done" }

ended_is_found : get_turn "t1" (with_turn ended_turn) ≡ some ended_turn
unfolding get_turn
ended_is_found = refl

ended_turn_frozen_example :
    (get_turn "t1" (finish_turn "t1" 9 "failed" none none (with_turn ended_turn)) ≡ some ended_turn)
    × (get_turn "t1" (mark_turn_resuming "t1" (with_turn ended_turn)).0 ≡ some ended_turn)
    × ((mark_turn_resuming "t1" (with_turn ended_turn)).1 ≡ 1)
    × (get_turn "t1" (clear_turn_resuming "t1" (with_turn ended_turn)) ≡ some ended_turn)
ended_turn_frozen_example =
    ended_turn_frozen "t1" (with_turn ended_turn) 9 "failed" none none ended_is_found refl

turn_is_found : get_turn "t1" (with_turn a_turn) ≡ some a_turn
unfolding get_turn
turn_is_found = refl

first_artifact :
    (register_artifact 4 "o/r#7" "developer" "branch" "b1" none one_session).1 ≡ row_id 1
unfolding register_artifact upsert_session strip
first_artifact = refl

register_artifact_again_example :
    let s' = (register_artifact 4 "o/r#7" "developer" "branch" "b1" none one_session).0 in
    register_artifact 5 "o/r#7" "architect" "branch" "b1" none s' ≡ (s', row_id 1)
register_artifact_again_example =
    register_artifact_again 4 5 "o/r#7" "developer" "architect" "branch" "b1" none none one_session
      first_artifact

abbrev with_branch : Store
with_branch = (register_artifact 4 "o/r#7" "developer" "branch" "b1" none one_session).0

abbrev a_block : ProjectBlock
a_block = block_row 2 "o/r" "no image" none (some 7) none

abbrev blocked : Store
blocked = record empty_store { project_blocks = a_block ∷ [] }

block_is_open : get_open_project_block "o/r" blocked ≡ some a_block
unfolding get_open_project_block
block_is_open = refl
