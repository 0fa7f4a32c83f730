-- ===== src/Reconciler/Github.antt =====
-- `_apply_snapshot` and `_sweep_github` of agentd/src/agentd/reconciler.py. The comparison of the issue's
-- check box with the session only writes a line of the log.
use code_workflow.Prelude.{ℕ, zero, suc, ◌+◌, Option, none, some, List, [], ◌∷◌, Bool, length, take}
use code_workflow.Store.Rows.{Store, Session}
use code_workflow.Store.Sessions.{list_nonterminal_sessions}
use code_workflow.Reconciler.{synthesis_cap, Report, Node, Snapshot, Seams}
use code_workflow.Reconciler.Sweep.{Sweep, note_issue, adopt_merges}
use code_workflow.Reconciler.Makes.{synth_head_drift, synth_untracked_opened, sweep_nodes}

-- What one session hands on to the next: the report, the store, and how much of the cap is left.
abbrev pub Pass : Type 0
Pass = Report × Store × ℕ

abbrev pub see_nodes : List Node → Sweep → Sweep
see_nodes nodes w = record w {
  report = record w.report { nodes_seen = w.report.nodes_seen + length nodes };
}

abbrev without_cap : Pass → Report × Store
without_cap (r, s, n) = (r, s)

module _ (x : Seams) (dry_run : Bool) where
  -- What is done for a session before its nodes.
  unfoldable pub before_nodes : Snapshot → Sweep → Sweep
  unfolding note_issue adopt_merges synth_head_drift synth_untracked_opened
  before_nodes snap w =
      synth_untracked_opened x dry_run (
        synth_head_drift x dry_run snap (adopt_merges x dry_run snap (note_issue x dry_run snap w)))

  unfoldable pub apply_snapshot : Snapshot → Sweep → Sweep
  unfolding before_nodes sweep_nodes
  apply_snapshot snap w =
      sweep_nodes x dry_run snap snap.nodes (see_nodes snap.nodes (before_nodes snap w))

  -- The steps of `apply_snapshot` before an exception: the issue, the merges, the heads, and then the
  -- untracked pull requests with a number of nodes.
  unfoldable pub apply_until : ℕ → Snapshot → Sweep → Sweep
  unfolding before_nodes note_issue adopt_merges synth_head_drift sweep_nodes
  apply_until zero snap w = w
  apply_until (suc zero) snap w = note_issue x dry_run snap w
  apply_until (suc (suc zero)) snap w = adopt_merges x dry_run snap (note_issue x dry_run snap w)
  apply_until (suc (suc (suc zero))) snap w =
      synth_head_drift x dry_run snap (adopt_merges x dry_run snap (note_issue x dry_run snap w))
  apply_until (suc (suc (suc (suc k)))) snap w =
      sweep_nodes x dry_run snap (take k snap.nodes) (see_nodes snap.nodes (before_nodes snap w))

  -- An exception keeps what is written, and the cap is what it was before the session.
  unfoldable pub sweep_snapshot : Option ℕ → Snapshot → Sweep → Sweep
  unfolding apply_snapshot apply_until
  sweep_snapshot none snap w = apply_snapshot snap w
  sweep_snapshot (some steps) snap w = record (apply_until steps snap w) { remaining = w.remaining }

  unfoldable pub sweep_session : Session → Option Snapshot → Pass → Pass
  unfolding sweep_snapshot
  sweep_session sess none p = p
  sweep_session sess (some snap) (r, s, n) =
      let w =
        sweep_snapshot (x.breaks_off sess) snap
          (record { sess = sess; report = r; store = s; remaining = n }) in
      (w.report, w.store, w.remaining)

  unfoldable pub sweep_sessions : (Session → Option Snapshot) → List Session → Pass → Pass
  unfolding sweep_session
  sweep_sessions fetch [] p = p
  sweep_sessions fetch (sess ∷ rest) p =
      sweep_sessions fetch rest (sweep_session sess (fetch sess) p)

  unfoldable pub sweep_with : Option (Session → Option Snapshot) → Report × Store → Report × Store
  unfolding sweep_sessions list_nonterminal_sessions
  sweep_with none rs = rs
  sweep_with (some fetch) (r, s) =
      without_cap (sweep_sessions fetch (list_nonterminal_sessions s) (r, s, synthesis_cap))

  unfoldable pub sweep_github : Report × Store → Report × Store
  unfolding sweep_with
  sweep_github rs = sweep_with x.fetch_snapshot rs
