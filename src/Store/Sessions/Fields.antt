-- ===== src/Store/Sessions/Fields.antt =====
-- `update_session_fields` of agentd/src/agentd/db.py.
use code_workflow.Prelude.{
  ℕ, String, Option, none, some, List, [], ◌∷◌, Bool, true, false, not, if◌then◌else◌, any,
}
use code_workflow.Prelude.Tables.{update_where}
use code_workflow.Fsm.{SessionState}
use code_workflow.Store.Rows.{Store, Session}
use code_workflow.Store.Sessions.{has_key}

-- One keyword argument of `update_session_fields`: a constructor for each allowed column, and
-- `disallowed` for any other name.
pub data Field : Type 0 where
  state : SessionState → Field
  paused_reason : Option String → Field
  resume_state : Option SessionState → Field
  roles_locked : ℕ → Field
  design_pr feature_pr : Option ℕ → Field
  design_pr_head feature_pr_head : Option String → Field
  turn_count consec_agent_turns review_rounds : ℕ → Field
  progress_fp : Option String → Field
  progress_repeat zero_thread_rounds silent_turns : ℕ → Field
  stall_open_threads : Option (List String) → Field
  verified_at : Option ℕ → Field
  classification : Option String → Field
  closed_issue_escalated_at : Option ℕ → Field
  updated_at : ℕ → Field
  disallowed : String → Field

abbrev pub is_allowed : Field → Bool
is_allowed (disallowed name) = false
is_allowed _ = true

abbrev pub is_updated_at : Field → Bool
is_updated_at (updated_at n) = true
is_updated_at _ = false

abbrev pub set_field : Field → Session → Session
set_field (state v) x = record x { state = v }
set_field (paused_reason v) x = record x { paused_reason = v }
set_field (resume_state v) x = record x { resume_state = v }
set_field (roles_locked v) x = record x { roles_locked = v }
set_field (design_pr v) x = record x { design_pr = v }
set_field (feature_pr v) x = record x { feature_pr = v }
set_field (design_pr_head v) x = record x { design_pr_head = v }
set_field (feature_pr_head v) x = record x { feature_pr_head = v }
set_field (turn_count v) x = record x { turn_count = v }
set_field (consec_agent_turns v) x = record x { consec_agent_turns = v }
set_field (review_rounds v) x = record x { review_rounds = v }
set_field (progress_fp v) x = record x { progress_fp = v }
set_field (progress_repeat v) x = record x { progress_repeat = v }
set_field (zero_thread_rounds v) x = record x { zero_thread_rounds = v }
set_field (silent_turns v) x = record x { silent_turns = v }
set_field (stall_open_threads v) x = record x { stall_open_threads = v }
set_field (verified_at v) x = record x { verified_at = v }
set_field (classification v) x = record x { classification = v }
set_field (closed_issue_escalated_at v) x = record x { closed_issue_escalated_at = v }
set_field (updated_at v) x = record x { updated_at = v }
set_field (disallowed name) x = x

abbrev pub set_fields : List Field → Session → Session
set_fields [] x = x
set_fields (f ∷ fs) x = set_fields fs (set_field f x)

-- `updated_at` is stamped unless it is among the fields
abbrev pub stamped : ℕ → List Field → Session → Session
stamped now fs x =
    if any is_updated_at fs then set_fields fs x else record (set_fields fs x) { updated_at = now }

-- `none` is the ValueError of a disallowed field; no fields at all is a return.
unfoldable pub update_session_fields : ℕ → String → List Field → Store → Option Store
update_session_fields now key [] s = some s
update_session_fields now key (f ∷ fs) s =
    if any (λ g. not (is_allowed g)) (f ∷ fs)
    then none
    else some (record s { sessions = update_where (has_key key) (stamped now (f ∷ fs)) s.sessions })
