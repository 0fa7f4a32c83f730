-- ===== src/Store/Runners.antt =====
-- The `runners` table of db.py: one row for each project.
pub mod Tier
use code_workflow.Prelude.{
  ℕ, String, Option, none, some, List, [], ◌∷◌, ◌++◌, Bool, true, false, if◌then◌else◌, str_eq, any,
  get_or,
}
use code_workflow.Prelude.Tables.{count_where, update_where, delete_where, first_where}
use code_workflow.Store.Rows.{Store, Runner, Session}

abbrev pub is_runner_of : String → Runner → Bool
is_runner_of project_key r = str_eq r.project_key project_key

abbrev pub is_hot : Runner → Bool
is_hot r = str_eq r.tier "hot"

unfoldable pub count_hot_sessions : Store → ℕ
count_hot_sessions s = count_where is_hot s.runners

unfoldable pub list_runners : Store → List Runner
list_runners s = s.runners

unfoldable pub delete_runner : String → Store → Store × ℕ
delete_runner project_key s = (
  record s { runners = delete_where (is_runner_of project_key) s.runners },
  count_where (is_runner_of project_key) s.runners,
)

unfoldable pub get_runner : String → Store → Option Runner
get_runner project_key s = first_where (is_runner_of project_key) s.runners

abbrev runner_for : Store → Option Session → Option Runner
runner_for s none = none
runner_for s (some x) = first_where (is_runner_of x.project_key) s.runners

unfoldable pub get_runner_for_session : String → Store → Option Runner
get_runner_for_session session_key s =
    runner_for s (first_where (λ x. str_eq x.session_key session_key) s.sessions)

unfoldable pub upsert_runner : ℕ → String → String → String → String → String → Store → Store
upsert_runner now project_key container_id endpoint token tier s =
    let row : Runner = record {
      project_key = project_key;
      container_id = some container_id;
      endpoint = some endpoint;
      token = some token;
      tier = tier;
      last_seen_at = some now;
    } in
    record s {
      runners =
          if any (is_runner_of project_key) s.runners
          then update_where (is_runner_of project_key) (λ r. row) s.runners
          else s.runners ++ row ∷ [];
    }

unfoldable pub touch_runner_seen : ℕ → String → Option ℕ → Store → Store × ℕ
touch_runner_seen clock project_key now s = (
  record s {
    runners =
        update_where (is_runner_of project_key)
          (λ r. record r { last_seen_at = some (get_or clock now) }) s.runners;
  },
  count_where (is_runner_of project_key) s.runners,
)
