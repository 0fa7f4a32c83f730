-- ===== src/SessionLoop/Process/Merges.antt =====
-- What `_process_one` of agentd/src/agentd/session_loop.py asks of the merge of a pull request.
use code_workflow.Prelude.{
  ℕ, String, Option, none, some, Bool, true, false, not, if◌then◌else◌, ◌==◌, ◌&&◌,
}
use code_workflow.Prelude.Split.{◌+++◌}
use code_workflow.Fsm.{
  SessionState, EventKind, design_merged, feature_merged, merging, awaiting_verification,
}
use code_workflow.Gitops.{role_branch_name}
use code_workflow.Store.Rows.{done, dropped}
use code_workflow.Store.Artifacts.{mark_artifact_removed}
use code_workflow.SessionLoop.Process.{World, Outcome, next, Outside, end_with, escalate_done, put}
use code_workflow.SessionLoop.Process.Events.{Classified}

-- int(event_pr) == int(tracked), where both are there and not 0
abbrev pub is_tracked : Option ℕ → Option ℕ → Bool
is_tracked (some m) (some n) = not (m == 0) && m == n
is_tracked _ _ = false

-- The text of a state: that of its name, for those that the file names.
abbrev pub state_text : SessionState → String
state_text SessionState.intake = "INTAKE"
state_text SessionState.planning = "PLANNING"
state_text SessionState.design_review = "DESIGN_REVIEW"
state_text SessionState.design_rework = "DESIGN_REWORK"
state_text SessionState.design_approved = "DESIGN_APPROVED"
state_text SessionState.implementing = "IMPLEMENTING"
state_text SessionState.paused_human = "PAUSED_HUMAN"
state_text SessionState.failed = "FAILED"
state_text SessionState.code_review = "CODE_REVIEW"
state_text SessionState.code_rework = "CODE_REWORK"
state_text SessionState.merging = "MERGING"
state_text SessionState.awaiting_verification = "AWAITING_VERIFICATION"
state_text SessionState.teardown = "TEARDOWN"
state_text SessionState.closed = "CLOSED"
state_text (SessionState.other s) = s

abbrev pub is_merging : SessionState → Bool
is_merging merging = true
is_merging _ = false

abbrev pub is_awaiting : SessionState → Bool
is_awaiting awaiting_verification = true
is_awaiting _ = false

abbrev pub is_design_merge : EventKind → Bool
is_design_merge design_merged = true
is_design_merge _ = false

abbrev pub is_feature_merge : EventKind → Bool
is_feature_merge feature_merged = true
is_feature_merge _ = false

module _ (o : Outside) where
  -- A session that awaits verification has seen this merge; one that was not merging has not been
  -- authorized to.
  abbrev pub merge_in_state : Classified → World → Outcome Classified
  merge_in_state c w =
      if is_awaiting c.state
      then end_with done c.taken.incoming w
      else if is_merging c.state
      then next c w
      else escalate_done o c.taken.session_key
          ("unauthorized Feature PR merge: state="
            +++ state_text c.state
            +++ " expected MERGING (merged without merge_authorized / §8.4 bypass)")
          c.taken.incoming w

  abbrev pub branch_removed : Classified → World → World
  branch_removed c w =
      let t = c.taken in
      let ref = role_branch_name t.incoming.repo t.issue_num "developer" in
      put (mark_artifact_removed o.now t.session_key ref (some "branch") none w.store).0 w

  abbrev pub check_design_merge : Classified → World → Outcome Classified
  check_design_merge c w =
      if is_tracked c.taken.sess.design_pr c.taken.incoming.pull_number
      then next c w
      else end_with dropped c.taken.incoming w

  abbrev pub check_feature_merge : Classified → World → Outcome Classified
  check_feature_merge c w =
      if is_tracked c.taken.sess.feature_pr c.taken.incoming.pull_number
      then merge_in_state c (branch_removed c w)
      else end_with dropped c.taken.incoming w

  unfoldable pub check_merge : Classified → World → Outcome Classified
  unfolding role_branch_name mark_artifact_removed
  check_merge c w =
      if is_design_merge c.kind
      then check_design_merge c w
      else if is_feature_merge c.kind
      then check_feature_merge c w
      else next c w
