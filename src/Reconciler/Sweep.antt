-- ===== src/Reconciler/Sweep.antt =====
-- What `_sweep_github` of agentd/src/agentd/reconciler.py does to a session's row: the notes of a closed
-- and a reopened issue, and `_adopt_forward`.
use code_workflow.Prelude.{
  ℕ, ◌+◌, String, Option, none, some, List, [], ◌∷◌, Bool, true, false, not, ◌&&◌, ◌==◌,
  if◌then◌else◌, str_eq, get_or,
}
use code_workflow.Prelude.Split.{◌+++◌}
use code_workflow.Fsm.{
  SessionState, EventKind, Transition, feature_merged, design_merged, transition,
}
use code_workflow.Store.Rows.{Store, Session}
use code_workflow.Store.Sessions.Fields.{Field, update_session_fields}
use code_workflow.SessionLoop.{close_reconcile_held}
use code_workflow.SessionLoop.Process.Events.{stripped_reason}
use code_workflow.SessionLoop.Process.Merges.{state_text}
use code_workflow.Reconciler.{Report, Snapshot, Seams}
use code_workflow.Reconciler.OpenTurns.{escalate_with}

-- What a session's part of the sweep works on: the row as it was read with its own writes since, the
-- report, the store, and how many deliveries may still be made.
pub record Sweep : Type 0 where
  pub sess : Session
  pub report : Report
  pub store : Store
  pub remaining : ℕ

-- A value that is there and not 0.
abbrev pub is_set : Option ℕ → Bool
is_set none = false
is_set (some n) = not (n == 0)

abbrev pub stamp_close : Option ℕ → Session → Session
stamp_close at sess = record sess { closed_issue_escalated_at = at }

abbrev pub set_reason : Option String → Session → Session
set_reason reason sess = record sess { paused_reason = reason }

abbrev pub set_state : SessionState → Session → Session
set_state st sess = record sess { state = st }

abbrev pub close_reason : SessionState → String
close_reason state =
    "GitHub issue is closed; session is still "
    +++ state_text state
    +++ " (reconcile sweep). Nothing classified; session left live."

module _ (x : Seams) (dry_run : Bool) where
  -- self.store.update_session_fields with the same write to the row at hand; the fields are allowed,
  -- so it does not raise.
  unfoldable pub save : (Session → Session) → List Field → Sweep → Sweep
  unfolding update_session_fields
  save change fs w = record w {
    sess = if dry_run then w.sess else change w.sess;
    store =
        if dry_run
        then w.store
        else get_or w.store (update_session_fields x.now w.sess.session_key fs w.store);
  }

  -- issue_state == "open": the note of the close is taken off
  unfoldable pub drop_note : Sweep → Sweep
  unfolding save
  drop_note w =
      if is_set w.sess.closed_issue_escalated_at
      then save (stamp_close none) (Field.closed_issue_escalated_at none ∷ []) w
      else w

  -- and the hold for it
  unfoldable pub lift_hold : Sweep → Sweep
  unfolding save
  lift_hold w =
      let stripped = stripped_reason w.sess.paused_reason in
      save (set_reason stripped) (Field.paused_reason stripped ∷ [])
        (record w { report = record w.report { holds_lifted = w.report.holds_lifted + 1 } })

  unfoldable pub note_open : Sweep → Sweep
  unfolding drop_note lift_hold close_reconcile_held
  note_open w =
      if close_reconcile_held w.sess.state w.sess then lift_hold (drop_note w) else drop_note w

  -- issue_state == "closed", not noted before
  unfoldable pub note_closed : Sweep → Sweep
  unfolding save
  note_closed w =
      let noted =
        save (stamp_close (some x.now)) (Field.closed_issue_escalated_at (some x.now) ∷ []) w in
      record noted {
        report = record w.report { escalated = w.report.escalated + 1 };
        store =
            if dry_run
            then noted.store
            else escalate_with x w.sess.session_key (close_reason w.sess.state) true noted.store;
      }

  unfoldable pub note_issue : Snapshot → Sweep → Sweep
  unfolding note_open note_closed
  note_issue snap w =
      if str_eq snap.issue_state "open"
      then note_open w
      else if str_eq snap.issue_state "closed" && not (is_set w.sess.closed_issue_escalated_at)
      then note_closed w
      else w

  unfoldable pub adopt : Option Transition → Sweep → Sweep
  unfolding save
  adopt none w = w
  adopt (some step) w =
      save (set_state step.new_state) (Field.state step.new_state ∷ [])
        (record w { report = record w.report { adopted = w.report.adopted + 1 } })

  unfoldable pub adopt_forward : EventKind → Sweep → Sweep
  unfolding adopt transition
  adopt_forward kind w = adopt (transition (some w.sess.state) kind) w

  unfoldable pub adopt_if : Bool → EventKind → Sweep → Sweep
  unfolding adopt_forward
  adopt_if merged kind w = if merged then adopt_forward kind w else w

  unfoldable pub adopt_merges : Snapshot → Sweep → Sweep
  unfolding adopt_if
  adopt_merges snap w =
      adopt_if snap.design_merged design_merged (adopt_if snap.feature_merged feature_merged w)
