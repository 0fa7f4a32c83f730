-- ===== src/Reconciler/Unpaused.antt =====
-- A closed issue whose Feature PR is merged, in the sweep of agentd/src/agentd/reconciler.py.
use code_workflow.Prelude.{
  ◌+◌, String, ◌≡◌, refl, sym, ap, ◌∙◌, none, some, [], ◌∷◌, Bool, true, false, not, arith, is_some,
  if◌then◌else◌,
}
use mathlib.Core.Path.{subst}
use code_workflow.Fsm.{
  SessionState, merging, awaiting_verification, feature_merged, design_merged, transition,
}
use code_workflow.Store.Rows.{Session}
use code_workflow.Store.Sessions.Fields.{Field, is_allowed, stamped}
use code_workflow.Store.Sessions.Writes.{find}
use code_workflow.Store.Sessions.Updates.{update_session_fields_found}
use code_workflow.SessionLoop.{Posted}
use code_workflow.SessionLoop.Pause.{Escalating, paused_row, escalate_found}
use code_workflow.Reconciler.{Snapshot, Seams}
use code_workflow.Reconciler.Sweep.{
  Sweep, is_set, stamp_close, set_state, close_reason, save, note_closed, note_issue, adopt,
  adopt_forward, adopt_if, adopt_merges,
}

save_found :
    (x : Seams) (change : Session → Session) (f : Field) (w : Sweep) {row : Session}
    → find w.sess.session_key w.store ≡ some row
    → not (is_allowed f) ≡ false
    → find w.sess.session_key (save x false change (f ∷ []) w).store
      ≡ some (stamped x.now (f ∷ []) row)
unfolding save
save_found x change f w h good =
    let written =
      update_session_fields_found x.now w.sess.session_key f [] w.store h (rw good refl) in
    rw (written.0) (written.1)

note_issue_closed :
    (x : Seams) (snap : Snapshot) (w : Sweep)
    → snap.issue_state ≡ "closed"
    → is_set w.sess.closed_issue_escalated_at ≡ false
    → note_issue x false snap w ≡ note_closed x false w
unfolding note_issue
note_issue_closed x snap w closes unnoted = rw (closes, unnoted) refl

merging_merged :
    (st : SessionState)
    → st ≡ merging
    → transition (some st) feature_merged
      ≡ some (record {
        new_state = awaiting_verification;
        freeze_roles = false;
        note = "Feature PR merged + branch delete";
      })
unfolding transition
merging_merged st at = rw at refl

awaiting_design :
    (st : SessionState) → st ≡ awaiting_verification → transition (some st) design_merged ≡ none
unfolding transition
awaiting_design st at = rw at refl

adopt_feature :
    (x : Seams) (v : Sweep)
    → v.sess.state ≡ merging
    → adopt_forward x false feature_merged v
      ≡ save x false
          (set_state awaiting_verification)
          (Field.state awaiting_verification ∷ [])
          (record v { report = record v.report { adopted = v.report.adopted + 1 } })
unfolding adopt_forward adopt
adopt_feature x v at = ap (λ t. adopt x false t v) (merging_merged v.sess.state at)

adopt_design :
    (x : Seams) (v : Sweep)
    → v.sess.state ≡ awaiting_verification
    → adopt_forward x false design_merged v ≡ v
unfolding adopt_forward adopt
adopt_design x v at = ap (λ t. adopt x false t v) (awaiting_design v.sess.state at)

-- The Feature PR's merge moves a MERGING session on, whether the Design PR is merged or not.
-- The session and its row in AWAITING_VERIFICATION, and one adoption counted.
abbrev moved : Seams → Sweep → Sweep
moved x v =
    save x false (set_state awaiting_verification) (Field.state awaiting_verification ∷ [])
      (record v { report = record v.report { adopted = v.report.adopted + 1 } })

moved_stays :
    (x : Seams) (v : Sweep) (b : Bool)
    → (if b then adopt_forward x false design_merged (moved x v) else moved x v) ≡ moved x v
moved_stays x v true = adopt_design x (moved x v) (unfold save in refl)
moved_stays x v false = refl

adopt_merging :
    (x : Seams) (snap : Snapshot) (v : Sweep)
    → v.sess.state ≡ merging
    → snap.feature_merged ≡ true
    → adopt_merges x false snap v ≡ moved x v
unfolding adopt_merges adopt_if
adopt_merging x snap v at merged =
    rw (merged, adopt_feature x v at) (moved_stays x v snap.design_merged)

module _ (x : Seams) (w : Sweep) {row : Session} (post : String → String → Posted)
    (posts : x.post_comment ≡ some post) (stored : find w.sess.session_key w.store ≡ some row)
    (merges : row.state ≡ merging) where
  -- The comment on the closed issue pauses the session.
  note_closed_found :
      (p : Session) × (find w.sess.session_key (note_closed x false w).store ≡ some p)
      × (p.resume_state ≡ some merging)
      × (is_some p.paused_reason ≡ true)
  unfolding note_closed
  note_closed_found =
      let key = w.sess.session_key in
      let f = Field.closed_issue_escalated_at (some x.now) in
      let reason = close_reason w.sess.state in
      let noted = (save x false (stamp_close (some x.now)) (f ∷ []) w).store in
      let e : Escalating = record {
        now = x.now;
        role = "system";
        reason = reason;
        posted = post key reason;
        hold = true;
      } in
      let row1 = stamped x.now (f ∷ []) row in
      let (s', wrote, found) =
        escalate_found key e noted (save_found x (stamp_close (some x.now)) f w stored refl)
          (ground arith) in
      (paused_row e row1, rw (posts, wrote) found, ground arith, refl)

  module _ (at_hand : w.sess.state ≡ merging) (snap : Snapshot)
      (closes : snap.issue_state ≡ "closed")
      (unnoted : is_set w.sess.closed_issue_escalated_at ≡ false)
      (merged : snap.feature_merged ≡ true) where
    noted_moved :
        adopt_merges x false snap (note_issue x false snap w) ≡ moved x (note_closed x false w)
    noted_moved =
        ap (adopt_merges x false snap) (note_issue_closed x snap w closes unnoted)
        ∙ adopt_merging x snap (note_closed x false w) (unfold note_closed save in at_hand) merged

    moved_found :
        (u : Session) × (find w.sess.session_key (moved x (note_closed x false w)).store ≡ some u)
        × (u.state ≡ awaiting_verification)
        × (u.resume_state ≡ some merging)
        × (is_some u.paused_reason ≡ true)
    moved_found =
        let (p, found, back, why) = note_closed_found in
        let noted = note_closed x false w in
        let counted : Sweep = record noted {
          report = record noted.report { adopted = noted.report.adopted + 1 };
        } in
        let same : noted.sess.session_key ≡ w.sess.session_key = unfold note_closed save in refl in
        let f = Field.state awaiting_verification in
        (
          stamped x.now (f ∷ []) p,
          subst (λ k. find k (moved x noted).store ≡ some (stamped x.now (f ∷ []) p)) same
              (save_found x (set_state awaiting_verification) f counted
                (subst (λ k. find k noted.store ≡ some p) (sym same) found) refl),
          refl,
          back,
          why,
        )

    -- A MERGING session whose issue is found closed, for the first time, and whose Feature PR is found
    -- merged in the same sweep is paused for its owner and then moved on by the merge: it stands in
    -- AWAITING_VERIFICATION, with the reason of its pause and the state to resume still in its row.
    pub closed_merged_unpaused :
        (u : Session) × (find w.sess.session_key
            (adopt_merges x false snap (note_issue x false snap w)).store
          ≡ some u)
        × (u.state ≡ awaiting_verification)
        × (u.resume_state ≡ some merging)
        × (is_some u.paused_reason ≡ true)
    closed_merged_unpaused =
        let (u, found, there, back, why) = moved_found in
        (u, ap (λ v. find w.sess.session_key v.store) noted_moved ∙ found, there, back, why)
