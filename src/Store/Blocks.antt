-- ===== src/Store/Blocks.antt =====
-- The `project_blocks` table of db.py: structural wedges of a project.
pub mod Episodes
use code_workflow.Prelude.{
  ℕ, String, Option, none, some, List, [], ◌∷◌, ◌++◌, Bool, true, false, ◌&&◌, if◌then◌else◌,
  str_eq, any, is_none,
}
use code_workflow.Prelude.Tables.{select, count_where, update_where, first_where, sort_by}
use code_workflow.Store.Rows.{Store, ProjectBlock}

abbrev pub is_block_of : String → ProjectBlock → Bool
is_block_of project_key b = str_eq b.project_key project_key

-- project_key = ? AND resolved_at IS NULL
abbrev pub is_open_block : String → ProjectBlock → Bool
is_open_block project_key b = is_block_of project_key b && is_none b.resolved_at

abbrev pub block_row : ℕ → String → String → Option String → Option ℕ → Option ℕ → ProjectBlock
block_row now project_key reason session_key issue_num comment_id = record {
  project_key = project_key;
  reason = reason;
  session_key = session_key;
  issue_num = issue_num;
  comment_id = comment_id;
  opened_at = now;
  resolved_at = none;
}

unfoldable pub open_project_block :
    ℕ → String → String → Option String → Option ℕ → Option ℕ → Store → Store
open_project_block now project_key reason session_key issue_num comment_id s =
    let row = block_row now project_key reason session_key issue_num comment_id in
    if any (is_open_block project_key) s.project_blocks then s else record s {
      project_blocks =
          if any (is_block_of project_key) s.project_blocks
          then update_where (is_block_of project_key) (λ b. row) s.project_blocks
          else s.project_blocks ++ row ∷ [];
    }

unfoldable pub get_open_project_block : String → Store → Option ProjectBlock
get_open_project_block project_key s = first_where (is_open_block project_key) s.project_blocks

unfoldable pub close_project_block : ℕ → String → Store → Store × ℕ
close_project_block now project_key s = (
  record s {
    project_blocks =
        update_where (is_open_block project_key) (λ b. record b { resolved_at = some now })
          s.project_blocks;
  },
  count_where (is_open_block project_key) s.project_blocks,
)

unfoldable pub list_open_project_blocks : Store → List ProjectBlock
list_open_project_blocks s =
    sort_by (λ b. b.opened_at) (select (λ b. is_none b.resolved_at) s.project_blocks)
