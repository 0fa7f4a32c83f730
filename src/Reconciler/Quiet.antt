-- ===== src/Reconciler/Quiet.antt =====
-- The parts of a pass of agentd/src/agentd/reconciler.py that make no delivery.
use code_workflow.Prelude.{
  ℕ, String, ◌≡◌, refl, ◌∙◌, map, none, some, List, [], ◌∷◌, Bool, true, false, arith,
}
use code_workflow.Store.Rows.{Store, Runner, Turn}
use code_workflow.Prelude.Split.{◌+++◌}
use code_workflow.SessionLoop.{clip}
use code_workflow.Store.Turns.{TurnView, finish_turn, mark_turn_resuming}
use code_workflow.Store.Runners.{delete_runner, touch_runner_seen}
use code_workflow.Reconciler.{
  Action, keep, spare, remove, missing_runner, Container, Entry, Report, Seams,
}
use code_workflow.Reconciler.Containers.{
  Inventory, Targets, place, decision_on, entry_of, judge_containers, clear_runners,
  probe_attachments,
}
use code_workflow.Reconciler.OpenTurns.{
  retire_turn, retire_reason, apply_open_turn, apply_open_turns,
}
use code_workflow.Reconciler.Kept.{escalate_by-Kept}
use code_workflow.Reconciler.Cap.{rows}
use code_workflow.Reconciler.Pass.{attach}

-- A part of the pass that makes no delivery.
pub record Quiet (new old : Report × Store) : Type 0 where
  pub made : new.0.synthesized ≡ old.0.synthesized
  pub stored : new.1.deliveries ≡ old.1.deliveries

Quiet-refl : (a : Report × Store) → Quiet a a
Quiet-refl a = record { made = refl; stored = refl }

Quiet-trans : {a b c : Report × Store} → Quiet a b → Quiet b c → Quiet a c
Quiet-trans p q = record { made = p.made ∙ q.made; stored = p.stored ∙ q.stored }

place-made :
    (dry_run : Bool) (a : Action) (e : Entry) (c : Container) (rt : Report × Targets)
    → (place dry_run a e c rt).0.synthesized ≡ rt.0.synthesized
place-made dry_run keep e c rt = refl
place-made dry_run spare e c rt = refl
place-made dry_run remove e c rt = ground arith
place-made dry_run missing_runner e c rt = ground arith

pub judge_containers-made :
    (now : ℕ) (inv : Inventory) (dry_run : Bool) (cs : List Container) (rt : Report × Targets)
    → (judge_containers now inv dry_run cs rt).0.synthesized ≡ rt.0.synthesized
unfolding judge_containers
judge_containers-made now inv dry_run [] rt = refl
judge_containers-made now inv dry_run (c ∷ cs) rt =
    judge_containers-made now inv dry_run cs _
    ∙ place-made dry_run (decision_on now inv c).action (entry_of now inv c) c rt

module _ (x : Seams) (dry_run : Bool) where
  clear_runners-Quiet :
      (ids : List String) (rows : List Runner) (rs : Report × Store)
      → Quiet (clear_runners dry_run ids rows rs) rs
  unfolding clear_runners delete_runner
  clear_runners-Quiet ids [] rs = Quiet-refl rs
  clear_runners-Quiet ids (row ∷ rows) rs =
      Quiet-trans (clear_runners-Quiet ids rows _)
        (record { made = ground arith; stored = ground arith })

  probe_attachments-Quiet :
      (inv : Inventory) (ts : Targets) (rs : Report × Store)
      → Quiet (probe_attachments x inv dry_run ts rs) rs
  unfolding probe_attachments touch_runner_seen
  probe_attachments-Quiet inv [] rs = Quiet-refl rs
  probe_attachments-Quiet inv ((pk, c) ∷ ts) rs =
      Quiet-trans (probe_attachments-Quiet inv ts _)
        (record { made = ground arith; stored = ground arith })

  retire_turn-stored :
      (t : Turn) (reason : String) (escalates : Bool) (s : Store)
      → (retire_turn x t reason escalates s).deliveries ≡ s.deliveries
  unfolding retire_turn finish_turn
  retire_turn-stored t reason escalates s = ground (
    arith,
    (escalate_by-Kept x x.post_comment t.session_key
        ("interrupted turn " +++ t.turn_id +++ " retired after failed resume: " +++ reason) false
        (finish_turn t.turn_id x.now "interrupted" (some (clip 500 reason)) none s)).deliveries,
  )

  apply_open_turn-Quiet :
      (v : TurnView) (rs : Report × Store) → Quiet (apply_open_turn x dry_run v rs) rs
  unfolding apply_open_turn mark_turn_resuming
  apply_open_turn-Quiet v rs = record {
    made = ground arith;
    stored = ground (
      arith,
      retire_turn-stored v.turn (retire_reason x v) false rs.1,
      retire_turn-stored v.turn "resume failed twice" true rs.1,
    );
  }

  pub apply_open_turns-Quiet :
      (vs : List TurnView) (rs : Report × Store) → Quiet (apply_open_turns x dry_run vs rs) rs
  unfolding apply_open_turns
  apply_open_turns-Quiet [] rs = Quiet-refl rs
  apply_open_turns-Quiet (v ∷ vs) rs =
      let one = apply_open_turn-Quiet v rs in
      Quiet-trans (apply_open_turns-Quiet vs _)
        (record { made = ground (arith, one.made); stored = ground (arith, one.stored) })

  clear_runners-sessions :
      (ids : List String) (rows : List Runner) (rs : Report × Store)
      → (clear_runners dry_run ids rows rs).1.sessions ≡ rs.1.sessions
  unfolding clear_runners delete_runner
  clear_runners-sessions ids [] rs = refl
  clear_runners-sessions ids (row ∷ rows) rs = clear_runners-sessions ids rows _ ∙ ground arith

  probe_attachments-sessions :
      (inv : Inventory) (ts : Targets) (rs : Report × Store)
      → (probe_attachments x inv dry_run ts rs).1.sessions ≡ rs.1.sessions
  unfolding probe_attachments touch_runner_seen
  probe_attachments-sessions inv [] rs = refl
  probe_attachments-sessions inv ((pk, c) ∷ ts) rs =
      probe_attachments-sessions inv ts _ ∙ ground arith

  pub attach-sessions :
      (inv : Inventory) (cs : List Container) (s : Store) (rt : Report × Targets)
      → (attach x dry_run inv cs s rt).1.sessions ≡ s.sessions
  unfolding attach
  attach-sessions inv cs s (r, ts) =
      let ids = map (λ (c : Container). c.id) cs in
      probe_attachments-sessions inv ts (clear_runners dry_run ids inv.runners (r, s))
      ∙ clear_runners-sessions ids inv.runners (r, s)

  pub attach-Quiet :
      (inv : Inventory) (cs : List Container) (s : Store) (rt : Report × Targets)
      → Quiet (attach x dry_run inv cs s rt) (rt.0, s)
  unfolding attach
  attach-Quiet inv cs s (r, ts) =
      let ids = map (λ (c : Container). c.id) cs in
      Quiet-trans (probe_attachments-Quiet inv ts (clear_runners dry_run ids inv.runners (r, s)))
        (clear_runners-Quiet ids inv.runners (r, s))
