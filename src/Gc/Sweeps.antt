-- ===== src/Gc/Sweeps.antt =====
-- `_sweep_session_dirs`, `_sweep_worktrees` and `_sweep_containers` of agentd/src/agentd/gc.py, which
-- only report.
use code_workflow.Prelude.{
  ℕ, String, Option, none, some, List, [], ◌∷◌, ◌++◌, Bool, true, false, not, ◌&&◌, ◌||◌, ◌==◌,
  if◌then◌else◌, str_eq, any, get_or, is_some,
}
use code_workflow.Prelude.Decimal.{is_digit, read_number}
use code_workflow.Gitops.{project_dir_name, shared_clone_path}
use code_workflow.Store.Rows.{Store, Session, Artifact}
use code_workflow.Store.Sessions.{list_sessions, is_closed, live_project_keys}
use code_workflow.Store.Artifacts.{list_artifacts}
use code_workflow.Store.Runners.{get_runner}
use code_workflow.SessionLoop.Process.Merges.{state_text}
use code_workflow.Gc.{
  artifact_age_floor_s, Child, ProjectDir, Held, Surroundings, Owner, unowned, live, live_cold,
  GcReport, is_older,
}

abbrev pub all_digits : String → Bool
all_digits String.[] = true
all_digits (String.◌∷◌ c s) = is_digit c && all_digits s

-- int(name), for a name of digits
unfoldable pub dir_number : String → Option ℕ
unfolding read_number
dir_number name = if str_eq name "" || not (all_digits name) then none else read_number name

-- The session that `sessions_by_issue` holds for a directory and a number: the last one of the list.
unfoldable pub session_for : String → ℕ → List Session → Option Session
unfolding project_dir_name
session_for dir issue [] = none
session_for dir issue (sess ∷ rest) =
    let later = session_for dir issue rest in
    let mine =
      not (str_eq sess.repo "")
      && not (sess.issue_num == 0)
      && str_eq (project_dir_name sess.repo) dir
      && sess.issue_num == issue in
    if is_some later then later else if mine then some sess else none

abbrev pub add_orphan : String → String → GcReport → GcReport
add_orphan ref what r = record r { orphans = r.orphans ++ record { ref = ref; what = what } ∷ [] }

-- found is not None and state != "CLOSED"
abbrev pub is_in_use : Option Session → Bool
is_in_use none = false
is_in_use (some sess) = not (is_closed sess.state)

abbrev pub state_or_absent : Option Session → String
state_or_absent none = "absent"
state_or_absent (some sess) =
    if str_eq (state_text sess.state) "" then "absent" else state_text sess.state

abbrev pub a_path : Option String → String → String
a_path none path = path
a_path (some resolved) path = resolved

module _ (x : Surroundings) (s : Store) where
  abbrev pub sweep_numbered : String → Child → Option ℕ → GcReport → GcReport
  unfolding session_for list_sessions
  sweep_numbered dir child none r = r
  sweep_numbered dir child (some issue) r =
      let found = session_for dir issue (list_sessions s) in
      if is_in_use found || not (is_older x.now artifact_age_floor_s child.mtime)
      then r
      else add_orphan child.path (state_or_absent found) r

  unfoldable pub sweep_children : String → List Child → GcReport → GcReport
  unfolding dir_number session_for list_sessions
  sweep_children dir [] r = r
  sweep_children dir (child ∷ rest) r =
      sweep_children dir rest
        (if child.is_dir then sweep_numbered dir child (dir_number child.name) r else r)

  abbrev pub sweep_dir : ProjectDir → Option (List Child) → GcReport → GcReport
  unfolding sweep_children
  sweep_dir p none r = r
  sweep_dir p (some children) r = if p.is_dir then sweep_children p.name children r else r

  unfoldable pub sweep_dirs : List ProjectDir → GcReport → GcReport
  unfolding sweep_children
  sweep_dirs [] r = r
  sweep_dirs (p ∷ ps) r = sweep_dirs ps (sweep_dir p p.sessions r)

  unfoldable pub sweep_session_dirs : GcReport → GcReport
  unfolding sweep_dirs
  sweep_session_dirs r = elim x.projects [ none ↦ r | some ps ↦ sweep_dirs ps r ]

  -- An open artifact of a session with a key, which is a worktree at the path.
  abbrev pub lists_worktree : String → Artifact → Bool
  lists_worktree path a =
      str_eq a.kind "worktree"
      && not (str_eq a.ref "")
      && (str_eq a.ref path || str_eq (a_path (x.disk.resolve a.ref) a.ref) path)

  -- path in ledger
  unfoldable pub in_ledger : String → Bool
  unfolding list_sessions list_artifacts
  in_ledger path =
      any
        (λ sess.
          not (str_eq sess.session_key "")
          && any (lists_worktree path) (list_artifacts sess.session_key true s))
        (list_sessions s)

  abbrev pub resolved : String → String
  resolved path = a_path (x.disk.resolve path) path

  unfoldable pub sweep_trees : String → List String → GcReport → GcReport
  unfolding in_ledger
  sweep_trees key [] r = r
  sweep_trees key (wt ∷ rest) r =
      let known = str_eq (resolved wt) key || in_ledger wt || in_ledger (resolved wt) in
      sweep_trees key rest (
        if known || not (is_older x.now artifact_age_floor_s (x.disk.mtime wt))
        then r
        else add_orphan wt "worktree" r)

  abbrev pub sweep_listed : String → Option (List String) → GcReport → GcReport
  unfolding sweep_trees
  sweep_listed key none r = r
  sweep_listed key (some trees) r = sweep_trees key trees r

  unfoldable pub sweep_clones : List String → List Session → GcReport → GcReport
  unfolding sweep_trees shared_clone_path
  sweep_clones seen [] r = r
  sweep_clones seen (sess ∷ rest) r =
      let clone = shared_clone_path x.root sess.repo in
      let key = resolved clone in
      let passed = str_eq sess.repo "" || any (str_eq key) seen in
      sweep_clones (if passed then seen else key ∷ seen) rest (
        if passed || not (x.disk.exists clone)
        then r
        else sweep_listed key (x.list_worktrees clone) r)

  unfoldable pub sweep_worktrees : GcReport → GcReport
  unfolding sweep_clones list_sessions
  sweep_worktrees r = sweep_clones [] (list_sessions s) r

  abbrev is_managed : Held → Bool
  is_managed c = str_eq (get_or "" c.managed) "true"

  abbrev owner_of : Held → Owner
  unfolding live_project_keys get_runner
  owner_of c =
      if not (
        not (str_eq c.project "")
        && live_project_keys s c.project
        && is_some (get_runner c.project s))
      then unowned
      else if c.running
      then live
      else live_cold

  unfoldable pub report_containers : List Held → GcReport → GcReport
  unfolding live_project_keys get_runner
  report_containers [] r = r
  report_containers (c ∷ cs) r = report_containers cs (
      if is_managed c
      then record r { containers = r.containers ++ record { held = c; owner = owner_of c } ∷ [] }
      else r)

  unfoldable pub sweep_containers : GcReport → GcReport
  unfolding report_containers
  sweep_containers r = elim x.list_containers [ none ↦ r | some cs ↦ report_containers cs r ]
