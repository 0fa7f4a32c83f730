-- ===== src/Gitops.antt =====
-- The names of agentd/src/agentd/gitops.py: the directory of a project, the branch that the
-- supervisor makes for a role, the reading of such a branch's name, and two questions to the disk. The git
-- commands of the rest of that file are not modelled. `int(text)` is that of ASCII digits.
pub mod Branches
use code_workflow.Prelude.{
  ℕ, String, Bool, true, false, not, ◌&&◌, ◌||◌, Option, none, some, if◌then◌else◌, get_or, strip,
  str_eq,
}
use code_workflow.Prelude.Int.{ℤ}
use code_workflow.Prelude.Decimal.{decimal_ℤ, parse_int}
use code_workflow.Prelude.Split.{◌+++◌, is_empty, partition, drop_prefix, has_char}

unfoldable pub project_dir_name : String → String
unfolding partition
project_dir_name repo_full = let parts = partition "/" repo_full in parts.0 +++ "__" +++ parts.1.1

unfoldable pub session_dir_name : String → String
unfolding partition project_dir_name
session_dir_name session_key =
    let parts = partition "#" session_key in project_dir_name parts.0 +++ "__" +++ parts.1.1

abbrev pub project_key_from_repo : String → String
unfolding strip
project_key_from_repo repo_full = strip repo_full

abbrev pub project_key_from_session : String → String
unfolding partition
project_key_from_session session_key = project_key_from_repo (partition "#" session_key).0

unfoldable pub branch_prefix : String → String
unfolding project_dir_name
branch_prefix repo_full = "agentd/" +++ project_dir_name repo_full +++ "/"

unfoldable pub role_branch_name : String → ℤ → String → String
unfolding branch_prefix decimal_ℤ
role_branch_name repo_full issue_num role =
    branch_prefix repo_full +++ decimal_ℤ issue_num +++ "/" +++ role

abbrev with_role : String → Option ℤ → Option (ℤ × String)
with_role role none = none
with_role role (some n) = some (n, role)

-- What follows the prefix of the project's branches.
abbrev pub parse_role_rest : Option String → Option (ℤ × String)
unfolding partition has_char parse_int
parse_role_rest none = none
parse_role_rest (some rest) =
    let parts = partition "/" rest in
    if not parts.1.0 || is_empty parts.1.1 || has_char "/" parts.1.1
    then none
    else with_role parts.1.1 (parse_int parts.0)

unfoldable pub parse_role_branch : Option String → String → Option (ℤ × String)
unfolding branch_prefix drop_prefix partition has_char parse_int
parse_role_branch none repo_full = none
parse_role_branch (some head_ref) repo_full =
    if is_empty head_ref || is_empty repo_full
    then none
    else parse_role_rest (drop_prefix (branch_prefix repo_full) head_ref)

abbrev has_role : String → Option (ℤ × String) → Bool
has_role role none = false
has_role role (some p) = str_eq p.1 role

unfoldable pub is_design_head_ref : Option String → String → Bool
unfolding parse_role_branch
is_design_head_ref head_ref repo_full = has_role "architect" (parse_role_branch head_ref repo_full)

unfoldable pub is_feature_head_ref : Option String → String → Bool
unfolding parse_role_branch
is_feature_head_ref head_ref repo_full = has_role "developer" (parse_role_branch head_ref repo_full)

-- root / "projects" / project_dir_name / "repo", as a text
unfoldable pub shared_clone_path : String → String → String
unfolding project_dir_name
shared_clone_path root repo_full = root +++ "/projects/" +++ project_dir_name repo_full +++ "/repo"

-- What the file system and git say of a path.
pub record Disk : Type 0 where
  pub exists : String → Bool
  pub is_dir : String → Bool
  -- a directory with no entries
  pub is_empty_dir : String → Bool
  -- `_git_answers_for`
  pub git_answers : String → Bool
  -- the output of `git branch --list`, `none` where git fails
  pub branch_list : String → String → Option String
  -- `none` is an OSError
  pub mtime : String → Option ℕ
  pub resolve : String → Option String

module _ (d : Disk) where
  abbrev lists_nothing : Option String → Bool
  unfolding strip
  lists_nothing none = false
  lists_nothing (some out) = is_empty (strip out)

  unfoldable pub local_branch_gone : String → String → Bool
  unfolding strip
  local_branch_gone clone branch =
      not (is_empty branch)
      && d.exists clone
      && (d.exists (clone +++ "/.git") || d.exists (clone +++ "/HEAD"))
      && d.git_answers clone
      && lists_nothing (d.branch_list clone branch)

  unfoldable pub scratch_dir_cleared : String → Bool
  scratch_dir_cleared ref = not (d.exists ref) || d.is_dir ref && d.is_empty_dir ref
