-- ===== src/Reconciler/Totals.antt =====
-- How many deliveries a whole pass of agentd/src/agentd/reconciler.py makes.
use code_workflow.Prelude.Tables.{count_where}
use code_workflow.Prelude.{
  ℕ, ◌+◌, ◌*◌, is_some, if◌then◌else◌, suc, ◌≤◌, ◌≡◌, refl, ap, Option, none, some, List, [], ◌∷◌,
  Bool, true, false, arith, length,
}
use code_workflow.Store.Rows.{Store, Session}
use code_workflow.Store.Sessions.{list_nonterminal_sessions}
use code_workflow.Store.Turns.{list_open_turns}
use code_workflow.Reconciler.{synthesis_cap, Container, Report, new_report, Snapshot, Seams}
use code_workflow.Reconciler.Sweep.{Sweep}
use code_workflow.Reconciler.Containers.{judge_containers}
use code_workflow.Reconciler.OpenTurns.{apply_open_turns, handle_open_turns}
use code_workflow.Reconciler.Cap.{rows, apply_snapshot-Counted, apply_until-Counted}
use code_workflow.Reconciler.Github.{
  Pass, sweep_snapshot, sweep_session, sweep_sessions, sweep_with, sweep_github,
}
use code_workflow.Reconciler.Pass.{take_inventory, attach, finish_pass, pass_with, reconcile_once}
use code_workflow.Reconciler.Quiet.{
  judge_containers-made, apply_open_turns-Quiet, attach-sessions, attach-Quiet,
}

module _ (x : Seams) (dry_run : Bool) where
  -- The sweep of the session ends in an exception.
  abbrev is_broken : Session → Bool
  is_broken sess = is_some (x.breaks_off sess)

  -- What the sweep makes is counted, and it is no more than what it takes off the cap, except at
  -- `broken` sessions, each of which may make as much as the whole cap.
  record Within (broken : ℕ) (new old : Pass) : Type 0 where
    total : new.0.synthesized + new.2 ≤ old.0.synthesized + old.2 + broken * 50
    grown : rows new.1 + new.2 ≤ rows old.1 + old.2 + broken * 50
    falls : new.2 ≤ old.2

  Within-refl : (n : ℕ) (p : Pass) → Within n p p
  Within-refl n p = record { total = omega arith; grown = omega arith; falls = omega arith }

  Within-trans :
      (b : Bool) (n : ℕ) {p q r : Pass}
      → Within (if b then 1 else 0) q p
      → Within n r q
      → Within (if b then suc n else n) r p
  Within-trans true n i j = record {
    total = omega (arith, i.total, j.total);
    grown = omega (arith, i.grown, j.grown);
    falls = omega (arith, i.falls, j.falls);
  }
  Within-trans false n i j = record {
    total = omega (arith, i.total, j.total);
    grown = omega (arith, i.grown, j.grown);
    falls = omega (arith, i.falls, j.falls);
  }

  abbrev broken_of : Option ℕ → ℕ
  broken_of stop = if is_some stop then 1 else 0

  sweep_snapshot-Within :
      (stop : Option ℕ) (snap : Snapshot) (w : Sweep)
      → w.remaining ≤ 50
      → let v = sweep_snapshot x dry_run stop snap w in
        Within (broken_of stop) (v.report, v.store, v.remaining) (w.report, w.store, w.remaining)
  unfolding sweep_snapshot
  sweep_snapshot-Within none snap w h =
      let one = apply_snapshot-Counted x dry_run snap w in
      record {
        total = omega (arith, one.total);
        grown = omega (arith, one.grown);
        falls = one.falls;
      }
  sweep_snapshot-Within (some steps) snap w h =
      let one = apply_until-Counted x dry_run steps snap w in
      record {
        total = omega (arith, one.total, h);
        grown = omega (arith, one.grown, h);
        falls = omega arith;
      }

  sweep_session-Within :
      (sess : Session) (snap : Option Snapshot) (p : Pass)
      → p.2 ≤ 50
      → Within (broken_of (x.breaks_off sess)) (sweep_session x dry_run sess snap p) p
  unfolding sweep_session
  sweep_session-Within sess none p h = Within-refl _ p
  sweep_session-Within sess (some snap) (r, s, n) h =
      sweep_snapshot-Within (x.breaks_off sess) snap
        (record { sess = sess; report = r; store = s; remaining = n }) h

  sweep_sessions-Within :
      (fetch : Session → Option Snapshot) (ss : List Session) (p : Pass)
      → p.2 ≤ 50
      → Within (count_where is_broken ss) (sweep_sessions x dry_run fetch ss p) p
  unfolding sweep_sessions
  sweep_sessions-Within fetch [] p h = Within-refl 0 p
  sweep_sessions-Within fetch (sess ∷ ss) p h =
      let one = sweep_session x dry_run sess (fetch sess) p in
      let a = sweep_session-Within sess (fetch sess) p h in
      let b = sweep_sessions-Within fetch ss one (omega (arith, a.falls, h)) in
      Within-trans (is_broken sess) (count_where is_broken ss) a b

  -- At most fifty deliveries more, in the report and in the store, and fifty for each broken session.
  record Capped (broken : ℕ) (new old : Report × Store) : Type 0 where
    made : new.0.synthesized ≤ old.0.synthesized + 50 * suc broken
    grown : rows new.1 ≤ rows old.1 + 50 * suc broken

  abbrev broken_in : Store → ℕ
  unfolding list_nonterminal_sessions
  broken_in s = count_where is_broken (list_nonterminal_sessions s)

  sweep_with-Capped :
      (f : Option (Session → Option Snapshot)) (rs : Report × Store)
      → Capped (broken_in rs.1) (sweep_with x dry_run f rs) rs
  unfolding sweep_with
  sweep_with-Capped none rs = record { made = omega arith; grown = omega arith }
  sweep_with-Capped (some fetch) (r, s) =
      let a =
        sweep_sessions-Within fetch (list_nonterminal_sessions s) (r, s, synthesis_cap)
          (omega arith) in
      record { made = omega (arith, a.total); grown = omega (arith, a.grown) }

  finish_pass-Capped : (rs : Report × Store) → Capped (broken_in rs.1) (finish_pass x dry_run rs) rs
  unfolding finish_pass handle_open_turns sweep_github
  finish_pass-Capped rs =
      let swept = sweep_github x dry_run rs in
      let a = sweep_with-Capped x.fetch_snapshot rs in
      let b = apply_open_turns-Quiet x dry_run (list_open_turns swept.1) swept in
      let same : rows (apply_open_turns x dry_run (list_open_turns swept.1) swept).1
          ≡ rows swept.1 =
        ap (λ ds. length ds) b.stored in
      record { made = omega (arith, a.made, b.made); grown = omega (arith, a.grown, same) }

  broken_same : (s t : Store) → s.sessions ≡ t.sessions → broken_in s ≡ broken_in t
  unfolding list_nonterminal_sessions
  broken_same s t e = rw e refl

  pass_with-Capped :
      (cs : Option (List Container)) (r : Report) (s : Store)
      → Capped (broken_in s) (pass_with x dry_run cs r s) (r, s)
  unfolding pass_with
  pass_with-Capped none r s =
      let a = finish_pass-Capped (record r { inventory_error = true }, s) in
      record { made = a.made; grown = a.grown }
  pass_with-Capped (some cs) r s =
      let inv = take_inventory x.now s in
      let judged = judge_containers x.now inv dry_run cs (r, []) in
      let attached = attach x dry_run inv cs s judged in
      let a = judge_containers-made x.now inv dry_run cs (r, []) in
      let b = attach-Quiet x dry_run inv cs s judged in
      let c = finish_pass-Capped attached in
      let same : rows attached.1 ≡ rows s = ap (λ ds. length ds) b.stored in
      let broken = broken_same attached.1 s (attach-sessions x dry_run inv cs s judged) in
      record {
        made = omega (arith, a, b.made, c.made, broken);
        grown = omega (arith, same, c.grown, broken);
      }

-- Whatever GitHub shows and however many sessions there are, one pass makes at most fifty deliveries,
-- and fifty more for each session whose sweep ends in an exception: its report counts no more, and
-- the ledger grows by no more. Where no sweep of a session raises, the bound is fifty.
pub reconcile_once-cap :
    (x : Seams) (dry_run : Bool) (s : Store)
    → let broken = count_where (λ y. is_some (x.breaks_off y)) (list_nonterminal_sessions s) in
      ((reconcile_once x dry_run s).0.synthesized ≤ 50 * suc broken)
      × (length (reconcile_once x dry_run s).1.deliveries ≤ length s.deliveries + 50 * suc broken)
unfolding reconcile_once
reconcile_once-cap x dry_run s =
    let a = pass_with-Capped x dry_run x.list_containers (new_report (list_open_turns s)) s in
    (omega (arith, a.made), a.grown)
