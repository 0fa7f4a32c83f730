-- ===== src/Reconciler/DrySweep.antt =====
-- The GitHub sweep of agentd/src/agentd/reconciler.py as a dry run.
use code_workflow.Prelude.{
  ℕ, zero, suc, take, String, ◌≡◌, refl, ◌∙◌, Option, none, some, List, [], ◌∷◌, true, arith, inl,
  inr, Option-cases,
}
use code_workflow.Fsm.{
  SessionState, EventKind, feature_merged, design_merged, design_pr_opened, feature_pr_opened,
  transition,
}
use code_workflow.SessionLoop.{Role, architect, developer}
use code_workflow.Reconciler.{Node, Snapshot, OpenPr, Seams}
use code_workflow.Reconciler.Sweep.{
  Sweep, drop_note, lift_hold, save, note_open, note_closed, note_issue, adopt, adopt_forward,
  adopt_if, adopt_merges,
}
use code_workflow.Reconciler.Makes.{
  Half, design_half, feature_half, drift, drift_of, synth_half, synth_head_drift, open_first,
  open_listed, open_half, open_halves, synth_untracked_opened, sweep_node, sweep_nodes,
}
use code_workflow.Reconciler.Github.{
  before_nodes, see_nodes, apply_snapshot, apply_until, sweep_snapshot,
}

-- The store and the removed containers, after a part of the sweep and before it.
pub record Still (new old : Sweep) : Type 0 where
  pub stored : new.store ≡ old.store
  pub removed : new.report.removed ≡ old.report.removed

Still-refl : (w : Sweep) → Still w w
Still-refl w = record { stored = refl; removed = refl }

Still-trans : {a b c : Sweep} → Still a b → Still b c → Still a c
Still-trans p q = record { stored = p.stored ∙ q.stored; removed = p.removed ∙ q.removed }

module _ (x : Seams) where
  note_issue-Still : (snap : Snapshot) (w : Sweep) → Still (note_issue x true snap w) w
  unfolding note_issue note_open note_closed drop_note lift_hold save
  note_issue-Still snap w = record { stored = ground arith; removed = ground arith }

  adopt_forward-Still : (kind : EventKind) (w : Sweep) → Still (adopt_forward x true kind w) w
  unfolding adopt_forward adopt save
  adopt_forward-Still kind w = elim (Option-cases (transition (some w.sess.state) kind)) [
    | inl e ↦ rw e (Still-refl w)
    | inr (t, e) ↦ rw e (record { stored = refl; removed = refl })
  ]

  adopt_merges-Still : (snap : Snapshot) (w : Sweep) → Still (adopt_merges x true snap w) w
  unfolding adopt_merges adopt_if
  adopt_merges-Still snap w =
      let a = adopt_forward-Still feature_merged w in
      let b = adopt_forward-Still design_merged w in
      let c = adopt_forward-Still design_merged (adopt_forward x true feature_merged w) in
      record {
        stored = ground (arith, a.stored, b.stored, c.stored);
        removed = ground (arith, a.removed, b.removed, c.removed);
      }

  synth_half-Still : (h : Half) (snap : Snapshot) (w : Sweep) → Still (synth_half x true h snap w) w
  unfolding synth_half drift_of drift save
  synth_half-Still h snap w = record { stored = ground arith; removed = ground arith }

  open_half-Still :
      (fetch : String → String → Option (List OpenPr)) (role : Role) (kind : EventKind)
      (pr : Option ℕ) (st : SessionState) (w : Sweep)
      → Still (open_half x true fetch role kind pr st w) w
  unfolding open_half open_listed open_first
  open_half-Still fetch role kind pr st w = record { stored = ground arith; removed = ground arith }

  open_halves-Still :
      (f : Option (String → String → Option (List OpenPr))) (w : Sweep)
      → Still (open_halves x true f w) w
  unfolding open_halves
  open_halves-Still none w = Still-refl w
  open_halves-Still (some fetch) w =
      let half = open_half-Still fetch in
      let a = half architect design_pr_opened w.sess.design_pr w.sess.state w in
      let b =
        half developer feature_pr_opened w.sess.feature_pr w.sess.state
          (open_half x true fetch architect design_pr_opened w.sess.design_pr w.sess.state w) in
      record {
        stored = ground (arith, a.stored, b.stored);
        removed = ground (arith, a.removed, b.removed);
      }

  synth_untracked_opened-Still : (w : Sweep) → Still (synth_untracked_opened x true w) w
  unfolding synth_untracked_opened
  synth_untracked_opened-Still w = open_halves-Still x.fetch_open_prs w

  sweep_node-Still :
      (snap : Snapshot) (node : Node) (w : Sweep) → Still (sweep_node x true snap node w) w
  unfolding sweep_node
  sweep_node-Still snap node w = record { stored = ground arith; removed = ground arith }

  sweep_nodes-Still :
      (snap : Snapshot) (nodes : List Node) (w : Sweep) → Still (sweep_nodes x true snap nodes w) w
  unfolding sweep_nodes
  sweep_nodes-Still snap [] w = Still-refl w
  sweep_nodes-Still snap (node ∷ nodes) w =
      Still-trans (sweep_nodes-Still snap nodes _) (sweep_node-Still snap node w)

  synth_head_drift-Still : (snap : Snapshot) (w : Sweep) → Still (synth_head_drift x true snap w) w
  unfolding synth_head_drift
  synth_head_drift-Still snap w =
      let design = design_half w.sess snap in
      Still-trans
        (synth_half-Still (feature_half w.sess snap) snap (synth_half x true design snap w))
        (synth_half-Still design snap w)

  before_nodes-Still : (snap : Snapshot) (w : Sweep) → Still (before_nodes x true snap w) w
  unfolding before_nodes
  before_nodes-Still snap w =
      let noted = note_issue x true snap w in
      let adopted = adopt_merges x true snap noted in
      let drifted = synth_head_drift x true snap adopted in
      Still-trans (synth_untracked_opened-Still drifted) (
        Still-trans (synth_head_drift-Still snap adopted)
          (Still-trans (adopt_merges-Still snap noted) (note_issue-Still snap w)))

  apply_snapshot-Still : (snap : Snapshot) (w : Sweep) → Still (apply_snapshot x true snap w) w
  unfolding apply_snapshot
  apply_snapshot-Still snap w =
      let before = before_nodes x true snap w in
      let a = before_nodes-Still snap w in
      let b = sweep_nodes-Still snap snap.nodes (see_nodes snap.nodes before) in
      record { stored = b.stored ∙ a.stored; removed = b.removed ∙ a.removed }

  apply_until-Still :
      (steps : ℕ) (snap : Snapshot) (w : Sweep) → Still (apply_until x true steps snap w) w
  unfolding apply_until
  apply_until-Still zero snap w = Still-refl w
  apply_until-Still (suc zero) snap w = note_issue-Still snap w
  apply_until-Still (suc (suc zero)) snap w =
      Still-trans (adopt_merges-Still snap (note_issue x true snap w)) (note_issue-Still snap w)
  apply_until-Still (suc (suc (suc zero))) snap w =
      let noted = note_issue x true snap w in
      Still-trans (synth_head_drift-Still snap (adopt_merges x true snap noted))
        (Still-trans (adopt_merges-Still snap noted) (note_issue-Still snap w))
  apply_until-Still (suc (suc (suc (suc k)))) snap w =
      let before = before_nodes x true snap w in
      let a = before_nodes-Still snap w in
      let b = sweep_nodes-Still snap (take k snap.nodes) (see_nodes snap.nodes before) in
      record { stored = b.stored ∙ a.stored; removed = b.removed ∙ a.removed }

  pub sweep_snapshot-Still :
      (stop : Option ℕ) (snap : Snapshot) (w : Sweep) → Still (sweep_snapshot x true stop snap w) w
  unfolding sweep_snapshot
  sweep_snapshot-Still none snap w = apply_snapshot-Still snap w
  sweep_snapshot-Still (some steps) snap w =
      let one = apply_until-Still steps snap w in
      record { stored = one.stored; removed = one.removed }
