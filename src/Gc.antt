-- ===== src/Gc.antt =====
-- agentd/src/agentd/gc.py: the hourly garbage collection. It reports what is left behind, deletes old
-- archives, closes rows of the cleanup ledger and runs `git gc`.
-- The files, Docker and git are the record `Surroundings`; the files that a pass unlinks and the clones
-- that it hands to `git gc` are lists of the report. The clock is read once, and unlinking a file raises
-- no exception.
pub mod Sweeps
pub mod Collect
pub mod Closed
pub mod Expired
pub mod Idle
use code_workflow.Prelude.{
  ℕ, ◌+◌, ◌*◌, String, Option, none, some, List, [], ◌∷◌, ◌++◌, Bool, true, false, not, ◌&&◌,
  if◌then◌else◌, leb,
}
use code_workflow.Prelude.Tables.{select}
use code_workflow.Gitops.{Disk}
use code_workflow.Prelude.Split.{ends_with}

abbrev pub artifact_age_floor_s : ℕ
artifact_age_floor_s = 600

abbrev pub tmp_max_age_s : ℕ
tmp_max_age_s = 3600

pub record File : Type 0 where
  pub path : String
  pub name : String
  -- `none` is an OSError
  pub mtime : Option ℕ

-- An entry of the archive's directory.
pub data ArchiveEntry : Type 0 where
  file : File → ArchiveEntry
  folder : String → List File → ArchiveEntry
  neither : ArchiveEntry

-- An entry of a project's `sessions`.
pub record Child : Type 0 where
  pub path : String
  pub name : String
  pub is_dir : Bool
  pub mtime : Option ℕ

pub record ProjectDir : Type 0 where
  pub name : String
  pub is_dir : Bool
  -- `none` where `sessions` is no directory
  pub sessions : Option (List Child)

pub record Held : Type 0 where
  pub name : String
  pub id : String
  pub managed : Option String
  pub project : String
  pub running : Bool

pub record Surroundings : Type 0 where
  pub now : ℕ
  pub root : String
  pub archive_days : ℕ
  pub has_admit_lock : Bool
  pub disk : Disk
  -- `none` where the path is no directory
  pub archive : Option (List ArchiveEntry)
  pub projects : Option (List ProjectDir)
  -- `none` where the call raises
  pub list_worktrees : String → Option (List String)
  pub list_containers : Option (List Held)

pub data Owner : Type 0 where
  unowned live live_cold : Owner

pub record Owned : Type 0 where
  pub held : Held
  pub owner : Owner

-- A ref with what else its entry says: a state or a kind.
pub record Noted : Type 0 where
  pub ref : String
  pub what : String

pub data GitGc : Type 0 where
  no_admit_lock : GitGc
  collected : String → GitGc

pub record GcReport : Type 0 where
  pub archives_expired : List String
  pub tmps_expired : List String
  pub residue : List String
  pub orphans : List Noted
  pub ledger_stale : List Noted
  pub containers : List Owned
  pub git_gc : List GitGc
  pub unlinked : List String
  pub git_gc_runs : List String

abbrev pub new_gc_report : GcReport
new_gc_report = record {
  archives_expired = [];
  tmps_expired = [];
  residue = [];
  orphans = [];
  ledger_stale = [];
  containers = [];
  git_gc = [];
  unlinked = [];
  git_gc_runs = [];
}

-- now - mtime >= age, where the difference may be below 0
abbrev pub is_older : ℕ → ℕ → Option ℕ → Bool
is_older now age none = false
is_older now age (some t) = leb (t + age) now

abbrev pub is_tmp : File → Bool
is_tmp f = ends_with f.name ".tar.gz.tmp"

abbrev pub is_tar : File → Bool
is_tar f = ends_with f.name ".tar.gz"

abbrev pub unlink : Bool → String → GcReport → GcReport
unlink dry_run path r = if dry_run then r else record r { unlinked = r.unlinked ++ path ∷ [] }

abbrev pub retain_s : Surroundings → ℕ
retain_s x = x.archive_days * 86400

abbrev is_residue : List File → Bool
is_residue [] = true
is_residue (f ∷ fs) = false

-- entry.glob("*.tar.gz"), then entry.glob("*.tar.gz.tmp")
abbrev pub archived_in : List File → List File
archived_in fs = select is_tar fs ++ select is_tmp fs

module _ (x : Surroundings) (dry_run : Bool) where
  unfoldable pub consider_archive_file : File → GcReport → GcReport
  unfolding ends_with
  consider_archive_file f r =
      if is_tmp f
      then (if is_older x.now tmp_max_age_s f.mtime
          then unlink dry_run f.path (record r { tmps_expired = r.tmps_expired ++ f.path ∷ [] })
          else r)
      else if is_tar f && is_older x.now (retain_s x) f.mtime
      then unlink dry_run f.path (record r { archives_expired = r.archives_expired ++ f.path ∷ [] })
      else r

  unfoldable pub consider_files : List File → GcReport → GcReport
  unfolding consider_archive_file
  consider_files [] r = r
  consider_files (f ∷ fs) r = consider_files fs (consider_archive_file f r)

  unfoldable pub sweep_entry : ArchiveEntry → GcReport → GcReport
  unfolding consider_archive_file consider_files ends_with
  sweep_entry (file f) r = consider_archive_file f r
  sweep_entry (folder path fs) r =
      let r' = consider_files (archived_in fs) r in
      if is_residue (archived_in fs) then record r' { residue = r'.residue ++ path ∷ [] } else r'
  sweep_entry neither r = r

  unfoldable pub sweep_entries : List ArchiveEntry → GcReport → GcReport
  unfolding sweep_entry
  sweep_entries [] r = r
  sweep_entries (e ∷ es) r = sweep_entries es (sweep_entry e r)

  unfoldable pub sweep_archive : GcReport → GcReport
  unfolding sweep_entries
  sweep_archive r = elim x.archive [ none ↦ r | some es ↦ sweep_entries es r ]
