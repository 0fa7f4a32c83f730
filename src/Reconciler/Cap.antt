-- ===== src/Reconciler/Cap.antt =====
-- How many deliveries the GitHub sweep of agentd/src/agentd/reconciler.py makes for one session.
use code_workflow.Prelude.{
  ℕ, zero, suc, take, ◌+◌, ◌≤◌, String, ◌≡◌, refl, ap, ◌∙◌, Option, none, some, List, [], ◌∷◌, Bool,
  true, false, not, ◌&&◌, ◌||◌, ◌==◌, if◌then◌else◌, str_eq, arith, inl, inr, Bool-cases, length,
  length-append, is_some,
}
use code_workflow.Prelude.Tables.{select, sort_by}
use code_workflow.Fsm.{SessionState, EventKind, design_pr_opened, feature_pr_opened, transition}
use code_workflow.SessionLoop.{Role, architect, developer}
use code_workflow.Store.Rows.{Store}
use code_workflow.Store.Deliveries.{NewDelivery, new_row, insert_delivery}
use code_workflow.Reconciler.{Node, Snapshot, OpenPr, Seams}
use code_workflow.Reconciler.Kept.{Silent, save-Silent, note_issue-Silent, adopt_merges-Silent}
use code_workflow.Reconciler.Synthesis.{
  insert_some, node_delivery, synchronize_delivery, opened_delivery, synthesize_node,
  synthesize_synchronize, synthesize_opened,
}
use code_workflow.Reconciler.Sweep.{Sweep, is_set, note_issue, adopt_merges}
use code_workflow.Reconciler.Makes.{
  cap_one, spend, spend_if, Half, design_half, feature_half, drift, drift_of, synth_half,
  synth_head_drift, open_first, open_listed, open_half, open_halves, synth_untracked_opened,
  is_match, head_name, is_skipped, sweep_node, sweep_nodes,
}
use code_workflow.Reconciler.Github.{before_nodes, see_nodes, apply_snapshot, apply_until}

abbrev pub rows : Store → ℕ
rows s = length s.deliveries

-- An insertion adds one row at most, and none where it reports none.
insert_delivery-rows :
    (now : ℕ) (d : NewDelivery) (s : Store)
    → (rows (insert_delivery now d s).0 ≤ rows s + 1)
      × ((insert_delivery now d s).1 ≡ false → rows (insert_delivery now d s).0 ≡ rows s)
unfolding insert_delivery
insert_delivery-rows now d s = (
  ground (arith, length-append {0} s.deliveries (new_row now d ∷ [])),
  λ h. ground (arith, length-append {0} s.deliveries (new_row now d ∷ [])),
)

-- What a part of the sweep makes is counted and taken off the cap, and what it stores is counted.
pub record Counted (new old : Sweep) : Type 0 where
  pub total : new.report.synthesized + new.remaining ≡ old.report.synthesized + old.remaining
  pub grown : rows new.store + new.remaining ≤ rows old.store + old.remaining
  pub falls : new.remaining ≤ old.remaining

Counted-refl : (w : Sweep) → Counted w w
Counted-refl w = record { total = refl; grown = omega arith; falls = omega arith }

Counted-trans : {a b c : Sweep} → Counted a b → Counted b c → Counted a c
Counted-trans p q = record {
  total = p.total ∙ q.total;
  grown = omega (arith, p.grown, q.grown);
  falls = omega (arith, p.falls, q.falls);
}

Counted-if : (b : Bool) {a c w : Sweep} → Counted a w → Counted c w → Counted (if b then a else c) w
Counted-if true p q = p
Counted-if false p q = q

of_Silent : {new old : Sweep} → Silent new old → Counted new old
of_Silent {new} {old} h =
    let same : rows new.store ≡ rows old.store = ap (λ ds. length ds) h.stored.deliveries in
    record {
      total = omega (arith, h.synthesized, h.remaining);
      grown = omega (arith, same, h.remaining);
      falls = omega (arith, h.remaining);
    }

cap_one-Counted : (w : Sweep) → Counted (cap_one w) w
cap_one-Counted w = record { total = refl; grown = omega arith; falls = omega arith }

-- A delivery is made where something is left of the cap.
module _ (w : Sweep) (left : (w.remaining == 0) ≡ false) where
  spend-Counted : Counted (spend w) w
  spend-Counted = record { total = ground (arith, left); grown = omega arith; falls = omega arith }

  spend_if-Counted :
      (made : Store × Bool)
      → (rows made.0 ≤ rows w.store + 1) × (made.1 ≡ false → rows made.0 ≡ rows w.store)
      → Counted (spend_if w made) w
  spend_if-Counted (s, true) h = record {
    total = ground (arith, left);
    grown = ground (arith, left, h.0);
    falls = omega arith;
  }
  spend_if-Counted (s, false) h = record {
    total = refl;
    grown = omega (arith, h.1 refl);
    falls = omega arith;
  }

-- cap_one where nothing is left
capped-if :
    (w new : Sweep)
    → ((w.remaining == 0) ≡ false → Counted new w)
    → Counted (if w.remaining == 0 then cap_one w else new) w
capped-if w new h = elim (Bool-cases (w.remaining == 0)) [
  | inl e ↦ rw e (cap_one-Counted w)
  | inr e ↦ rw e (h e)
]

module _ (x : Seams) (dry_run : Bool) where
  drift-Counted :
      (pr : ℕ) (h : Half) (snap : Snapshot) (w : Sweep) → Counted (drift x dry_run pr h snap w) w
  unfolding drift synthesize_synchronize
  drift-Counted pr h snap w = Counted-if (str_eq h.stored h.live) (Counted-refl w) (
      Counted-if (str_eq h.stored "" && not h.in_rework)
        (of_Silent (save-Silent x dry_run (h.stamp h.live) (h.watermark (some h.live) ∷ []) w))
        (capped-if w _ λ left. Counted-if dry_run (spend-Counted w left) (
          spend_if-Counted w left (synthesize_synchronize x w.sess snap pr h.live w.store)
            (insert_delivery-rows x.now (synchronize_delivery w.sess snap pr h.live) w.store))))

  drift_of-Counted :
      (h : Half) (snap : Snapshot) (w : Sweep) (pr : Option ℕ)
      → Counted (drift_of x dry_run h snap w pr) w
  unfolding drift_of
  drift_of-Counted h snap w none = Counted-refl w
  drift_of-Counted h snap w (some pr) =
      Counted-if (h.merged || pr == 0 || str_eq h.live "") (Counted-refl w)
        (drift-Counted pr h snap w)

  synth_head_drift-Counted :
      (snap : Snapshot) (w : Sweep) → Counted (synth_head_drift x dry_run snap w) w
  unfolding synth_head_drift synth_half
  synth_head_drift-Counted snap w =
      let design = design_half w.sess snap in
      let feature = feature_half w.sess snap in
      Counted-trans
        (drift_of-Counted feature snap (drift_of x dry_run design snap w design.pr) feature.pr)
        (drift_of-Counted design snap w design.pr)

  open_first-Counted :
      (prs : List OpenPr) (w : Sweep)
      → (w.remaining == 0) ≡ false
      → Counted (open_first x dry_run prs w) w
  unfolding open_first synthesize_opened
  open_first-Counted [] w left = Counted-refl w
  open_first-Counted (pr ∷ prs) w left = Counted-if dry_run (spend-Counted w left) (
      spend_if-Counted w left (synthesize_opened x w.sess pr w.store)
        (insert_delivery-rows x.now (opened_delivery w.sess pr) w.store))

  open_listed-Counted :
      (role : Role) (listed : Option (List OpenPr)) (w : Sweep)
      → (w.remaining == 0) ≡ false
      → Counted (open_listed x dry_run role listed w) w
  unfolding open_listed
  open_listed-Counted role none w left = Counted-refl w
  open_listed-Counted role (some listed) w left =
      open_first-Counted (sort_by (λ p. p.number) (select (is_match w.sess role) listed)) w left

  open_half-Counted :
      (fetch : String → String → Option (List OpenPr)) (role : Role) (kind : EventKind)
      (pr : Option ℕ) (st : SessionState) (w : Sweep)
      → Counted (open_half x dry_run fetch role kind pr st w) w
  unfolding open_half
  open_half-Counted fetch role kind pr st w =
      Counted-if (is_set pr || not (is_some (transition (some st) kind))) (Counted-refl w)
        (capped-if w _ (open_listed-Counted role (fetch w.sess.repo (head_name w.sess role)) w))

  open_halves-Counted :
      (f : Option (String → String → Option (List OpenPr))) (w : Sweep)
      → Counted (open_halves x dry_run f w) w
  unfolding open_halves
  open_halves-Counted none w = Counted-refl w
  open_halves-Counted (some fetch) w =
      let opened =
        open_half x dry_run fetch architect design_pr_opened w.sess.design_pr w.sess.state w in
      Counted-if (str_eq w.sess.repo "" || w.sess.issue_num == 0) (Counted-refl w) (
        Counted-trans
          (open_half-Counted fetch developer feature_pr_opened w.sess.feature_pr w.sess.state
            opened)
          (open_half-Counted fetch architect design_pr_opened w.sess.design_pr w.sess.state w))

  node_row :
      (snap : Snapshot) (node : Node) (w : Sweep)
      → rows (synthesize_node x w.sess snap node w.store) ≤ rows w.store + 1
  unfolding synthesize_node
  node_row snap node w = go (node_delivery w.sess snap node)
    where
      go : (d : Option NewDelivery) → rows (insert_some x.now d w.store) ≤ rows w.store + 1
      go none = omega arith
      go (some d) = (insert_delivery-rows x.now d w.store).0

  sweep_node-Counted :
      (snap : Snapshot) (node : Node) (w : Sweep) → Counted (sweep_node x dry_run snap node w) w
  unfolding sweep_node
  sweep_node-Counted snap node w = Counted-if (is_skipped w.sess w.store node) (Counted-refl w) (
      capped-if w _ λ left. record {
        total = (spend-Counted w left).total;
        grown = ground (arith, left, node_row snap node w);
        falls = (spend-Counted w left).falls;
      })

  sweep_nodes-Counted :
      (snap : Snapshot) (nodes : List Node) (w : Sweep)
      → Counted (sweep_nodes x dry_run snap nodes w) w
  unfolding sweep_nodes
  sweep_nodes-Counted snap [] w = Counted-refl w
  sweep_nodes-Counted snap (node ∷ nodes) w =
      Counted-trans (sweep_nodes-Counted snap nodes (sweep_node x dry_run snap node w))
        (sweep_node-Counted snap node w)

  abbrev adopted_of : Snapshot → Sweep → Sweep
  adopted_of snap w = adopt_merges x dry_run snap (note_issue x dry_run snap w)

  adopted-Counted : (snap : Snapshot) (w : Sweep) → Counted (adopted_of snap w) w
  adopted-Counted snap w =
      Counted-trans (of_Silent (adopt_merges-Silent x dry_run snap (note_issue x dry_run snap w)))
        (of_Silent (note_issue-Silent x dry_run snap w))

  before_nodes-Counted : (snap : Snapshot) (w : Sweep) → Counted (before_nodes x dry_run snap w) w
  unfolding before_nodes synth_untracked_opened
  before_nodes-Counted snap w =
      let drifted = synth_head_drift x dry_run snap (adopted_of snap w) in
      Counted-trans (open_halves-Counted x.fetch_open_prs drifted)
        (Counted-trans (synth_head_drift-Counted snap (adopted_of snap w)) (adopted-Counted snap w))

  nodes-Counted :
      (snap : Snapshot) (nodes : List Node) (w : Sweep)
      → Counted
          (sweep_nodes x dry_run snap nodes (see_nodes snap.nodes (before_nodes x dry_run snap w)))
          w
  nodes-Counted snap nodes w =
      let before = before_nodes x dry_run snap w in
      let a = before_nodes-Counted snap w in
      let b = sweep_nodes-Counted snap nodes (see_nodes snap.nodes before) in
      record {
        total = b.total ∙ a.total;
        grown = omega (arith, a.grown, b.grown);
        falls = omega (arith, a.falls, b.falls);
      }

  pub apply_snapshot-Counted :
      (snap : Snapshot) (w : Sweep) → Counted (apply_snapshot x dry_run snap w) w
  unfolding apply_snapshot
  apply_snapshot-Counted snap w = nodes-Counted snap snap.nodes w

  pub apply_until-Counted :
      (steps : ℕ) (snap : Snapshot) (w : Sweep) → Counted (apply_until x dry_run steps snap w) w
  unfolding apply_until
  apply_until-Counted zero snap w = Counted-refl w
  apply_until-Counted (suc zero) snap w = of_Silent (note_issue-Silent x dry_run snap w)
  apply_until-Counted (suc (suc zero)) snap w = adopted-Counted snap w
  apply_until-Counted (suc (suc (suc zero))) snap w =
      Counted-trans (synth_head_drift-Counted snap (adopted_of snap w)) (adopted-Counted snap w)
  apply_until-Counted (suc (suc (suc (suc k)))) snap w = nodes-Counted snap (take k snap.nodes) w
