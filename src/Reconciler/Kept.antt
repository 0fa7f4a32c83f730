-- ===== src/Reconciler/Kept.antt =====
-- What the writes of agentd/src/agentd/reconciler.py to a session leave alone: the deliveries and the
-- turns.
use code_workflow.Prelude.{
  ℕ, ◌+◌, String, ◌≡◌, refl, ◌∙◌, Option, none, some, List, [], ◌∷◌, Bool, true, false, arith,
  get_or, not, ◌&&◌, if◌then◌else◌, str_eq, inl, inr, Option-cases,
}
use code_workflow.Fsm.{EventKind, Transition, transition, feature_merged, design_merged}
use code_workflow.Store.Rows.{Store, Session}
use code_workflow.Store.Sessions.{get_session}
use code_workflow.Store.Escalations.{open_escalation}
use code_workflow.Store.Sessions.Fields.{Field, update_session_fields}
use code_workflow.SessionLoop.{Posted, escalate, close_reconcile_held}
use code_workflow.SessionLoop.Process.Events.{stripped_reason}
use code_workflow.Reconciler.{Snapshot, Seams}
use code_workflow.Reconciler.OpenTurns.{escalate_by}
use code_workflow.Reconciler.Sweep.{
  Sweep, is_set, stamp_close, set_reason, set_state, close_reason, save, drop_note, lift_hold,
  note_open, note_closed, note_issue, adopt, adopt_forward, adopt_if, adopt_merges,
}

pub record Kept (new old : Store) : Type 0 where
  pub deliveries : new.deliveries ≡ old.deliveries
  pub turns : new.turns ≡ old.turns

pub Kept-refl : (s : Store) → Kept s s
Kept-refl s = record { deliveries = refl; turns = refl }

pub Kept-trans : {a b c : Store} → Kept a b → Kept b c → Kept a c
Kept-trans p q = record { deliveries = p.deliveries ∙ q.deliveries; turns = p.turns ∙ q.turns }

Kept-if : (b : Bool) {a c s : Store} → Kept a s → Kept c s → Kept (if b then a else c) s
Kept-if true p q = p
Kept-if false p q = q

fields-Kept :
    (now : ℕ) (key : String) (fs : List Field) (s : Store)
    → Kept (get_or s (update_session_fields now key fs s)) s
unfolding update_session_fields
fields-Kept now key [] s = Kept-refl s
fields-Kept now key (f ∷ fs) s = record { deliveries = ground arith; turns = ground arith }

pub escalate-Kept :
    (now : ℕ) (key role reason : String) (posted : Posted) (hold : Bool) (s : Store)
    → Kept (get_or s (escalate now key role reason posted hold s)) s
unfolding escalate update_session_fields open_escalation
escalate-Kept now key role reason posted hold s = elim (Option-cases (get_session key s)) [
  | inl e ↦ rw e (record { deliveries = refl; turns = refl })
  | inr (v, e) ↦ rw e (record { deliveries = ground arith; turns = ground arith })
]

pub escalate_by-Kept :
    (x : Seams) (post : Option (String → String → Posted)) (key reason : String) (hold : Bool)
    (s : Store)
    → Kept (escalate_by x post key reason hold s) s
escalate_by-Kept x none key reason hold s = Kept-refl s
escalate_by-Kept x (some post) key reason hold s =
    escalate-Kept x.now key "system" reason (post key reason) hold s

-- A part of the sweep that makes no delivery.
pub record Silent (new old : Sweep) : Type 0 where
  pub stored : Kept new.store old.store
  pub synthesized : new.report.synthesized ≡ old.report.synthesized
  pub remaining : new.remaining ≡ old.remaining

pub Silent-refl : (w : Sweep) → Silent w w
Silent-refl w = record { stored = Kept-refl w.store; synthesized = refl; remaining = refl }

pub Silent-trans : {a b c : Sweep} → Silent a b → Silent b c → Silent a c
Silent-trans p q = record {
  stored = Kept-trans p.stored q.stored;
  synthesized = p.synthesized ∙ q.synthesized;
  remaining = p.remaining ∙ q.remaining;
}

module _ (x : Seams) where
  pub save-Silent :
      (dry_run : Bool) (change : Session → Session) (fs : List Field) (w : Sweep)
      → Silent (save x dry_run change fs w) w
  unfolding save
  save-Silent true change fs w = Silent-refl w
  save-Silent false change fs w = record {
    stored = fields-Kept x.now w.sess.session_key fs w.store;
    synthesized = refl;
    remaining = refl;
  }

Silent-if : (b : Bool) {a c w : Sweep} → Silent a w → Silent c w → Silent (if b then a else c) w
Silent-if true p q = p
Silent-if false p q = q

module _ (x : Seams) (dry_run : Bool) where
  drop_note-Silent : (w : Sweep) → Silent (drop_note x dry_run w) w
  unfolding drop_note
  drop_note-Silent w =
      Silent-if (is_set w.sess.closed_issue_escalated_at)
        (save-Silent x dry_run (stamp_close none) (Field.closed_issue_escalated_at none ∷ []) w)
        (Silent-refl w)

  lift_hold-Silent : (w : Sweep) → Silent (lift_hold x dry_run w) w
  unfolding lift_hold
  lift_hold-Silent w =
      let counted : Sweep = record w {
        report = record w.report { holds_lifted = w.report.holds_lifted + 1 };
      } in
      let same : Silent counted w = record {
        stored = Kept-refl w.store;
        synthesized = refl;
        remaining = refl;
      } in
      let stripped = stripped_reason w.sess.paused_reason in
      Silent-trans
        (save-Silent x dry_run (set_reason stripped) (Field.paused_reason stripped ∷ []) counted)
        same

  note_open-Silent : (w : Sweep) → Silent (note_open x dry_run w) w
  unfolding note_open
  note_open-Silent w =
      let dropped = drop_note-Silent w in
      Silent-if (close_reconcile_held w.sess.state w.sess)
        (Silent-trans (lift_hold-Silent (drop_note x dry_run w)) dropped) dropped

  note_closed-Silent : (w : Sweep) → Silent (note_closed x dry_run w) w
  unfolding note_closed
  note_closed-Silent w =
      let fields : List Field = Field.closed_issue_escalated_at (some x.now) ∷ [] in
      let s = (save x dry_run (stamp_close (some x.now)) fields w).store in
      let noted = save-Silent x dry_run (stamp_close (some x.now)) fields w in
      record {
        stored = Kept-if dry_run noted.stored (
            Kept-trans
              (escalate_by-Kept x x.post_comment w.sess.session_key (close_reason w.sess.state) true
                s)
              noted.stored);
        synthesized = refl;
        remaining = refl;
      }

  pub note_issue-Silent : (snap : Snapshot) (w : Sweep) → Silent (note_issue x dry_run snap w) w
  unfolding note_issue
  note_issue-Silent snap w = Silent-if (str_eq snap.issue_state "open") (note_open-Silent w) (
      Silent-if (str_eq snap.issue_state "closed" && not (is_set w.sess.closed_issue_escalated_at))
        (note_closed-Silent w) (Silent-refl w))

  adopt-Silent : (step : Option Transition) (w : Sweep) → Silent (adopt x dry_run step w) w
  unfolding adopt
  adopt-Silent none w = Silent-refl w
  adopt-Silent (some step) w =
      let counted : Sweep = record w {
        report = record w.report { adopted = w.report.adopted + 1 };
      } in
      let same : Silent counted w = record {
        stored = Kept-refl w.store;
        synthesized = refl;
        remaining = refl;
      } in
      Silent-trans
        (save-Silent x dry_run (set_state step.new_state) (Field.state step.new_state ∷ []) counted)
        same

  adopt_if-Silent :
      (merged : Bool) (kind : EventKind) (w : Sweep) → Silent (adopt_if x dry_run merged kind w) w
  unfolding adopt_if adopt_forward
  adopt_if-Silent merged kind w =
      Silent-if merged (adopt-Silent (transition (some w.sess.state) kind) w) (Silent-refl w)

  pub adopt_merges-Silent : (snap : Snapshot) (w : Sweep) → Silent (adopt_merges x dry_run snap w) w
  unfolding adopt_merges
  adopt_merges-Silent snap w =
      Silent-trans
        (adopt_if-Silent snap.design_merged design_merged
          (adopt_if x dry_run snap.feature_merged feature_merged w))
        (adopt_if-Silent snap.feature_merged feature_merged w)
