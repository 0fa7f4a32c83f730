-- ===== src/Tests/GcTests.antt =====
-- A pass of the garbage collection over a small store.
use code_workflow.Prelude.{
  ℕ, String, ◌≡◌, ◌⊎◌, refl, none, some, [], ◌∷◌, true, false, strip, Memᴰ, All,
}
use code_workflow.Prelude.Split.{ends_with}
use code_workflow.Gitops.{Disk, local_branch_gone, shared_clone_path}
use code_workflow.Store.Rows.{Store, Artifact}
use code_workflow.Store.Sessions.{upsert_session, list_sessions}
use code_workflow.Store.Artifacts.{list_artifacts, mark_artifact_removed}
use code_workflow.Gc.{File, file, folder, Surroundings, new_gc_report, sweep_archive}
use code_workflow.Gc.Collect.{sweep_ledger, maybe_git_gc}
use code_workflow.Gc.Closed.{Was, sweep_ledger-Was}
use code_workflow.Gc.Expired.{archive_files, expired, sweep_archive_lem}
use code_workflow.Gc.Idle.{IsIdle, maybe_git_gc-IsIdle}
use code_workflow.Tests.RowTests.{with_merging}

-- The clone of o/r is there, and has no branches.
abbrev a_disk : Disk
a_disk = record {
  exists = λ path. true;
  is_dir = λ path. true;
  is_empty_dir = λ path. false;
  git_answers = λ path. true;
  branch_list = λ clone branch. some "";
  mtime = λ path. some 0;
  resolve = λ path. some path;
}

abbrev a_file : String → ℕ → File
a_file name mtime = record { path = name; name = name; mtime = some mtime }

abbrev surroundings : Surroundings
surroundings = record {
  now = 100000;
  root = "/srv";
  archive_days = 1;
  has_admit_lock = true;
  disk = a_disk;
  archive = some (
      file (a_file "a.tar.gz" 10)
      ∷ folder "s" (a_file "b.tar.gz" 99999 ∷ a_file "b.tar.gz.tmp" 90000 ∷ [])
      ∷ []);
  projects = none;
  list_worktrees = λ clone. some [];
  list_containers = some [];
}

two_deleted :
    expired surroundings (archive_files surroundings.archive) ≡ "a.tar.gz" ∷ "b.tar.gz.tmp" ∷ []
unfolding ends_with
two_deleted = refl

sweep_archive_example :
    (sweep_archive surroundings false new_gc_report).unlinked
    ≡ expired surroundings (archive_files surroundings.archive)
sweep_archive_example = sweep_archive_lem surroundings

abbrev a_branch : Artifact
a_branch = record {
  id = 1;
  session_key = "o/r#7";
  role = "developer";
  kind = "branch";
  ref = "b1";
  created_at = 4;
  removed_at = none;
}

abbrev with_old_branch : Store
with_old_branch = record with_merging { artifacts = a_branch ∷ [] }

branch_closed :
    (sweep_ledger surroundings false (new_gc_report, with_old_branch)).1.artifacts
    ≡ record a_branch { removed_at = some 100000 } ∷ []
unfolding sweep_ledger list_sessions list_artifacts local_branch_gone shared_clone_path
    mark_artifact_removed upsert_session strip
branch_closed = refl

sweep_ledger-Was_example :
    Was surroundings
      (list_sessions with_old_branch)
      with_old_branch.artifacts
      (record a_branch { removed_at = some 100000 })
sweep_ledger-Was_example =
    sweep_ledger-Was surroundings false new_gc_report with_old_branch
      (record a_branch { removed_at = some 100000 }) (rw branch_closed (Memᴰ.head refl))

maybe_git_gc-IsIdle_example :
    ((surroundings.has_admit_lock ≡ true)
      ⊎ ((maybe_git_gc surroundings false with_merging new_gc_report).git_gc_runs ≡ []))
    × All
        (IsIdle surroundings with_merging (list_sessions with_merging))
        (maybe_git_gc surroundings false with_merging new_gc_report).git_gc_runs
maybe_git_gc-IsIdle_example = maybe_git_gc-IsIdle surroundings with_merging
