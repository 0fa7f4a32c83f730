-- ===== src/Gc/Collect.antt =====
-- `_sweep_ledger`, `_maybe_git_gc` and `collect_once` of agentd/src/agentd/gc.py.
use code_workflow.Prelude.{
  ◌+◌, String, Option, none, some, List, [], ◌∷◌, ◌++◌, Bool, true, false, not, ◌||◌, ◌==◌,
  if◌then◌else◌, str_eq, any, leb,
}
use code_workflow.Prelude.Split.{◌+++◌}
use code_workflow.Gitops.{shared_clone_path, local_branch_gone, scratch_dir_cleared}
use code_workflow.Store.Rows.{Store, Session, Artifact}
use code_workflow.Store.Sessions.{project_key_or, list_sessions, live_project_keys}
use code_workflow.Store.Artifacts.{list_artifacts, mark_artifact_removed}
use code_workflow.Gc.{
  artifact_age_floor_s, Surroundings, no_admit_lock, collected, GcReport, new_gc_report,
  sweep_archive,
}
use code_workflow.Gc.Sweeps.{sweep_session_dirs, sweep_worktrees, sweep_containers}

module _ (x : Surroundings) where
  abbrev pub branch_gone_in : Option String → String → Bool
  unfolding local_branch_gone
  branch_gone_in none ref = false
  branch_gone_in (some clone) ref = local_branch_gone x.disk clone ref

  unfoldable pub ledger_row_is_stale : String → String → Option String → Bool
  unfolding local_branch_gone scratch_dir_cleared
  ledger_row_is_stale kind ref clone =
      if str_eq kind "branch"
      then branch_gone_in clone ref
      else if str_eq kind "scratch"
      then scratch_dir_cleared x.disk ref
      else if str_eq kind "worktree"
      then not (x.disk.exists ref)
      else false

  abbrev pub clone_of : Session → Option String
  unfolding shared_clone_path
  clone_of sess = if str_eq sess.repo "" then none else some (shared_clone_path x.root sess.repo)

  -- created <= 0 or now - created < ARTIFACT_AGE_FLOOR_S, or the artifact is still there
  unfoldable pub is_spared : Session → Artifact → Bool
  unfolding ledger_row_is_stale shared_clone_path
  is_spared sess a =
      not (ledger_row_is_stale a.kind a.ref (clone_of sess))
      || a.created_at == 0
      || not (leb (a.created_at + artifact_age_floor_s) x.now)

  module _ (dry_run : Bool) where
    unfoldable pub sweep_row : Session → Artifact → GcReport × Store → GcReport × Store
    unfolding mark_artifact_removed
    sweep_row sess a (r, s) = (
      record r { ledger_stale = r.ledger_stale ++ record { ref = a.ref; what = a.kind } ∷ [] },
      (if dry_run
          then s
          else (mark_artifact_removed x.now sess.session_key a.ref (some a.kind) (some x.now) s).0),
    )

    unfoldable pub sweep_rows : Session → List Artifact → GcReport × Store → GcReport × Store
    unfolding is_spared sweep_row
    sweep_rows sess [] rs = rs
    sweep_rows sess (a ∷ rest) rs =
        sweep_rows sess rest (if is_spared sess a then rs else sweep_row sess a rs)

    unfoldable pub sweep_ledger_of : List Session → GcReport × Store → GcReport × Store
    unfolding sweep_rows list_artifacts
    sweep_ledger_of [] rs = rs
    sweep_ledger_of (sess ∷ rest) rs = sweep_ledger_of rest (
        if str_eq sess.session_key ""
        then rs
        else sweep_rows sess (list_artifacts sess.session_key true rs.1) rs)

    unfoldable pub sweep_ledger : GcReport × Store → GcReport × Store
    unfolding sweep_ledger_of list_sessions
    sweep_ledger (r, s) = sweep_ledger_of (list_sessions s) (r, s)

    -- str(sess.get("project_key") or repo)
    abbrev pub project_of : Session → String
    project_of sess = project_key_or (some sess.project_key) sess.repo

    abbrev pub has_clone : String → Bool
    has_clone clone = x.disk.exists (clone +++ "/.git") || x.disk.is_dir clone

    abbrev pub collect_clone : String → String → GcReport → GcReport
    collect_clone repo clone r = record r {
      git_gc = r.git_gc ++ collected repo ∷ [];
      git_gc_runs = if dry_run then r.git_gc_runs else r.git_gc_runs ++ clone ∷ [];
    }

    unfoldable pub git_gc_of : Store → List String → List Session → GcReport → GcReport
    unfolding shared_clone_path live_project_keys
    git_gc_of s seen [] r = r
    git_gc_of s seen (sess ∷ rest) r =
        let clone = shared_clone_path x.root sess.repo in
        let passed = str_eq sess.repo "" || any (str_eq sess.repo) seen in
        git_gc_of s (if passed then seen else sess.repo ∷ seen) rest (
          if passed || not (has_clone clone) || live_project_keys s (project_of sess)
          then r
          else collect_clone sess.repo clone r)

    unfoldable pub maybe_git_gc : Store → GcReport → GcReport
    unfolding git_gc_of list_sessions
    maybe_git_gc s r =
        if x.has_admit_lock
        then git_gc_of s [] (list_sessions s) r
        else record r { git_gc = r.git_gc ++ no_admit_lock ∷ [] }

    abbrev last_sweeps : GcReport × Store → GcReport × Store
    unfolding maybe_git_gc sweep_containers
    last_sweeps (r, s) = (maybe_git_gc s (sweep_containers x s r), s)

    unfoldable pub collect_once : Store → GcReport × Store
    unfolding sweep_archive sweep_session_dirs sweep_worktrees sweep_ledger maybe_git_gc
        sweep_containers
    collect_once s =
        let filed = sweep_archive x dry_run new_gc_report in
        last_sweeps (sweep_ledger (sweep_worktrees x s (sweep_session_dirs x s filed), s))
