-- ===== src/Reconciler/DryRun.antt =====
-- A dry run of `reconcile_once` of agentd/src/agentd/reconciler.py.
use code_workflow.Prelude.{
  ℕ, String, ◌≡◌, refl, map, ◌∙◌, Option, none, some, List, [], ◌∷◌, true, arith,
}
use code_workflow.Store.Rows.{Store, Session, Runner}
use code_workflow.Store.Sessions.{list_nonterminal_sessions}
use code_workflow.Store.Turns.{TurnView, list_open_turns}
use code_workflow.Reconciler.{
  Container, Action, keep, spare, remove, missing_runner, Entry, Report, new_report, synthesis_cap,
  Snapshot, Seams,
}
use code_workflow.Reconciler.Containers.{
  Inventory, Targets, place, decision_on, entry_of, judge_containers, clear_runners,
  probe_attachments,
}
use code_workflow.Reconciler.OpenTurns.{apply_open_turn, apply_open_turns, handle_open_turns}
use code_workflow.Reconciler.Github.{Pass, sweep_session, sweep_sessions, sweep_with, sweep_github}
use code_workflow.Reconciler.Pass.{take_inventory, attach, finish_pass, pass_with, reconcile_once}
use code_workflow.Reconciler.DrySweep.{sweep_snapshot-Still}

place-removed :
    (a : Action) (e : Entry) (c : Container) (rt : Report × Targets)
    → (place true a e c rt).0.removed ≡ rt.0.removed
place-removed keep e c rt = refl
place-removed spare e c rt = refl
place-removed remove e c rt = refl
place-removed missing_runner e c rt = refl

judge_containers-removed :
    (now : ℕ) (inv : Inventory) (cs : List Container) (rt : Report × Targets)
    → (judge_containers now inv true cs rt).0.removed ≡ rt.0.removed
unfolding judge_containers
judge_containers-removed now inv [] rt = refl
judge_containers-removed now inv (c ∷ cs) rt =
    judge_containers-removed now inv cs _
    ∙ place-removed (decision_on now inv c).action (entry_of now inv c) c rt

-- The store and the removed containers, after a part and before it.
record Same (new old : Report × Store) : Type 0 where
  stored : new.1 ≡ old.1
  removed : new.0.removed ≡ old.0.removed

Same-refl : (a : Report × Store) → Same a a
Same-refl a = record { stored = refl; removed = refl }

Same-trans : {a b c : Report × Store} → Same a b → Same b c → Same a c
Same-trans p q = record { stored = p.stored ∙ q.stored; removed = p.removed ∙ q.removed }

clear_runners-Same :
    (ids : List String) (rows : List Runner) (rs : Report × Store)
    → Same (clear_runners true ids rows rs) rs
unfolding clear_runners
clear_runners-Same ids [] rs = Same-refl rs
clear_runners-Same ids (row ∷ rows) rs =
    Same-trans (clear_runners-Same ids rows _)
      (record { stored = ground arith; removed = ground arith })

module _ (x : Seams) where
  probe_attachments-Same :
      (inv : Inventory) (ts : Targets) (rs : Report × Store)
      → Same (probe_attachments x inv true ts rs) rs
  unfolding probe_attachments
  probe_attachments-Same inv [] rs = Same-refl rs
  probe_attachments-Same inv ((pk, c) ∷ ts) rs =
      Same-trans (probe_attachments-Same inv ts _)
        (record { stored = ground arith; removed = ground arith })

  apply_open_turn-Same :
      (v : TurnView) (rs : Report × Store) → Same (apply_open_turn x true v rs) rs
  unfolding apply_open_turn
  apply_open_turn-Same v rs = record { stored = ground arith; removed = ground arith }

  apply_open_turns-Same :
      (vs : List TurnView) (rs : Report × Store) → Same (apply_open_turns x true vs rs) rs
  unfolding apply_open_turns
  apply_open_turns-Same [] rs = Same-refl rs
  apply_open_turns-Same (v ∷ vs) rs =
      let one = apply_open_turn-Same v rs in
      Same-trans (apply_open_turns-Same vs _)
        (record { stored = ground (arith, one.stored); removed = ground (arith, one.removed) })

  abbrev rest : Pass → Report × Store
  rest p = (p.0, p.1)

  sweep_session-Same :
      (sess : Session) (snap : Option Snapshot) (p : Pass)
      → Same (rest (sweep_session x true sess snap p)) (rest p)
  unfolding sweep_session
  sweep_session-Same sess none p = Same-refl (rest p)
  sweep_session-Same sess (some snap) (r, s, n) =
      let one =
        sweep_snapshot-Still x (x.breaks_off sess) snap
          (record { sess = sess; report = r; store = s; remaining = n }) in
      record { stored = one.stored; removed = one.removed }

  sweep_sessions-Same :
      (fetch : Session → Option Snapshot) (ss : List Session) (p : Pass)
      → Same (rest (sweep_sessions x true fetch ss p)) (rest p)
  unfolding sweep_sessions
  sweep_sessions-Same fetch [] p = Same-refl (rest p)
  sweep_sessions-Same fetch (sess ∷ ss) p =
      Same-trans (sweep_sessions-Same fetch ss (sweep_session x true sess (fetch sess) p))
        (sweep_session-Same sess (fetch sess) p)

  sweep_with-Same :
      (f : Option (Session → Option Snapshot)) (rs : Report × Store)
      → Same (sweep_with x true f rs) rs
  unfolding sweep_with
  sweep_with-Same none rs = Same-refl rs
  sweep_with-Same (some fetch) (r, s) =
      sweep_sessions-Same fetch (list_nonterminal_sessions s) (r, s, synthesis_cap)

  finish_pass-Same : (rs : Report × Store) → Same (finish_pass x true rs) rs
  unfolding finish_pass handle_open_turns sweep_github
  finish_pass-Same rs =
      let a = sweep_with-Same x.fetch_snapshot rs in
      let b =
        apply_open_turns-Same (list_open_turns (sweep_github x true rs).1)
          (sweep_github x true rs) in
      record { stored = b.stored ∙ a.stored; removed = b.removed ∙ a.removed }

  pass_with-Same :
      (cs : Option (List Container)) (r : Report) (s : Store)
      → Same (pass_with x true cs r s) (r, s)
  unfolding pass_with attach
  pass_with-Same none r s =
      let a = finish_pass-Same (record r { inventory_error = true }, s) in
      record { stored = a.stored; removed = a.removed }
  pass_with-Same (some cs) r s =
      let inv = take_inventory x.now s in
      let ids = map (λ (c : Container). c.id) cs in
      let judged = judge_containers x.now inv true cs (r, []) in
      let cleared = clear_runners true ids inv.runners (judged.0, s) in
      let probed = probe_attachments x inv true judged.1 cleared in
      let a = judge_containers-removed x.now inv cs (r, []) in
      let b = Same-trans (finish_pass-Same probed) (
        Same-trans (probe_attachments-Same inv judged.1 cleared)
          (clear_runners-Same ids inv.runners (judged.0, s))) in
      record { stored = b.stored; removed = b.removed ∙ a }

-- A dry run of a pass leaves the store as it is and removes no container, whatever it finds.
pub dry_run_lem :
    (x : Seams) (s : Store)
    → ((reconcile_once x true s).1 ≡ s) × ((reconcile_once x true s).0.removed ≡ [])
unfolding reconcile_once
dry_run_lem x s =
    let a = pass_with-Same x x.list_containers (new_report (list_open_turns s)) s in
    (a.stored, a.removed)
