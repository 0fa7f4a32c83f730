-- ===== src/Store/Sessions.antt =====
-- The `sessions` table of db.py.
pub mod Fields
pub mod Writes
pub mod Updates
use code_workflow.Prelude.{
  ℕ, suc, ◌+◌, String, Option, none, some, List, [], ◌∷◌, ◌++◌, Bool, true, false, not, ◌&&◌, ◌||◌,
  ◌==◌, if◌then◌else◌, str_eq, any, get_or, coalesce,
}
use code_workflow.Prelude.Tables.{
  select, count_where, update_where, first_where, sort_desc, insert_desc,
}
use code_workflow.Fsm.{SessionState, teardown, closed, is_terminal}
use code_workflow.LoopSafety.{SilentMode, keep, reset, inc}
use code_workflow.Store.Rows.{Store, Session, Runner}

abbrev pub has_key : String → Session → Bool
has_key key x = str_eq x.session_key key

-- state NOT IN ('CLOSED', 'TEARDOWN')
unfoldable pub list_nonterminal_sessions : Store → List Session
unfolding is_terminal
list_nonterminal_sessions s = select (λ x. not (is_terminal x.state)) s.sessions

unfoldable pub list_sessions : Store → List Session
list_sessions s = sort_desc (λ x. x.updated_at) s.sessions

-- A session with the runner columns of the LEFT JOIN.
pub record SessionView : Type 0 where
  pub session : Session
  pub runner : Option Runner

abbrev pub runner_of : Store → Session → Option Runner
runner_of s x = first_where (λ r. str_eq r.project_key x.project_key) s.runners

abbrev joined : Store → Option Session → Option SessionView
joined s none = none
joined s (some x) = some (record { session = x; runner = runner_of s x })

unfoldable pub get_session : String → Store → Option SessionView
get_session key s = joined s (first_where (has_key key) s.sessions)

abbrev holds : Option ℕ → ℕ → Bool
holds none n = false
holds (some m) n = m == n

abbrev head : List Session → Option Session
head [] = none
head (x ∷ xs) = some x

unfoldable pub get_session_by_design_pr : String → ℕ → Store → Option SessionView
get_session_by_design_pr repo pr_number s = joined s (
    head (
      sort_desc (λ x. x.updated_at)
        (select (λ x. str_eq x.repo repo && holds x.design_pr pr_number) s.sessions)))

unfoldable pub get_session_by_feature_pr : String → ℕ → Store → Option SessionView
get_session_by_feature_pr repo pr_number s = joined s (
    head (
      sort_desc (λ x. x.updated_at)
        (select (λ x. str_eq x.repo repo && holds x.feature_pr pr_number) s.sessions)))

-- The arguments of `upsert_session`.
pub record NewSession : Type 0 where
  pub session_key : String
  pub repo : String
  pub issue_num : ℕ
  pub state : SessionState
  pub architect : String
  pub developer : String
  pub created_at : ℕ
  pub updated_at : ℕ
  pub project_key : Option String
  pub paused_reason : Option String
  pub roles_locked : Option ℕ
  pub design_pr : Option ℕ
  pub turn_count : Option ℕ
  pub consec_agent_turns : Option ℕ
  pub review_rounds : Option ℕ
  pub progress_fp : Option String
  pub progress_repeat : Option ℕ
  pub zero_thread_rounds : Option ℕ

-- project_key or repo
abbrev pub project_key_or : Option String → String → String
project_key_or none repo = repo
project_key_or (some key) repo = if str_eq key "" then repo else key

abbrev pub inserted : NewSession → Session
inserted a = record {
  session_key = a.session_key;
  project_key = project_key_or a.project_key a.repo;
  repo = a.repo;
  issue_num = a.issue_num;
  state = a.state;
  paused_reason = a.paused_reason;
  resume_state = none;
  stall_open_threads = none;
  architect = a.architect;
  developer = a.developer;
  roles_locked = get_or 0 a.roles_locked;
  design_pr = a.design_pr;
  feature_pr = none;
  design_pr_head = none;
  feature_pr_head = none;
  turn_count = get_or 0 a.turn_count;
  consec_agent_turns = get_or 0 a.consec_agent_turns;
  review_rounds = get_or 0 a.review_rounds;
  progress_fp = a.progress_fp;
  progress_repeat = get_or 0 a.progress_repeat;
  zero_thread_rounds = get_or 0 a.zero_thread_rounds;
  silent_turns = 0;
  gh_watermark = none;
  verified_at = none;
  classification = none;
  closed_issue_escalated_at = none;
  created_at = a.created_at;
  updated_at = a.updated_at;
}

-- ON CONFLICT(session_key) DO UPDATE SET
abbrev pub conflicting : NewSession → Session → Session
conflicting a x = record x {
  project_key = project_key_or a.project_key a.repo;
  paused_reason = coalesce a.paused_reason x.paused_reason;
  design_pr = coalesce a.design_pr x.design_pr;
  progress_fp = coalesce a.progress_fp x.progress_fp;
  updated_at = a.updated_at;
}

unfoldable pub upsert_session : NewSession → Store → Store
upsert_session a s = record s {
  sessions =
      if any (has_key a.session_key) s.sessions
      then update_where (has_key a.session_key) (conflicting a) s.sessions
      else s.sessions ++ inserted a ∷ [];
}

pub record TurnCounters : Type 0 where
  pub turn_count : ℕ
  pub consec_agent_turns : ℕ
  pub silent_turns : ℕ

-- CASE ? WHEN 'reset' THEN 0 WHEN 'inc' THEN silent_turns + 1 ELSE silent_turns END
abbrev pub moved_silent : SilentMode → ℕ → ℕ
moved_silent reset n = 0
moved_silent inc n = n + 1
moved_silent keep n = n

abbrev pub bumped : ℕ → SilentMode → Bool → Session → Session
bumped now silent restart_consec x = record x {
  turn_count = x.turn_count + 1;
  consec_agent_turns = if restart_consec then 1 else x.consec_agent_turns + 1;
  silent_turns = moved_silent silent x.silent_turns;
  updated_at = now;
}

abbrev pub counters_of : Session → TurnCounters
counters_of x = record {
  turn_count = x.turn_count;
  consec_agent_turns = x.consec_agent_turns;
  silent_turns = x.silent_turns;
}

abbrev returning : Option Session → Option TurnCounters
returning none = none
returning (some x) = some (counters_of x)

-- The RETURNING row is the updated one; `none` is the KeyError of an unknown session. The mode is a
-- `SilentMode`, so the source's ValueError for another text cannot arise.
unfoldable pub bump_turn_counters :
    ℕ → String → SilentMode → Bool → Store → Store × Option TurnCounters
bump_turn_counters now key silent restart_consec s =
    let sessions = update_where (has_key key) (bumped now silent restart_consec) s.sessions in
    (record s { sessions = sessions }, returning (first_where (has_key key) sessions))

unfoldable pub count_project_sessions : String → Store → ℕ
count_project_sessions project_key s =
    count_where (λ x. str_eq x.project_key project_key) s.sessions

abbrev pub is_closed : SessionState → Bool
is_closed closed = true
is_closed _ = false

-- The set as its membership test: SELECT DISTINCT project_key … WHERE state != 'CLOSED', less ''.
unfoldable pub live_project_keys : Store → String → Bool
live_project_keys s key =
    not (str_eq key "") && any (λ x. str_eq x.project_key key && not (is_closed x.state)) s.sessions
