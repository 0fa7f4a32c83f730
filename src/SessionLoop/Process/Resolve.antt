-- ===== src/SessionLoop/Process/Resolve.antt =====
-- `_resolve_session_for_delivery`, `_pr_author_login`, `_pr_number_from_payload` and
-- `_payload_head_sha` of agentd/src/agentd/session_loop.py.
use code_workflow.Prelude.{ℕ, String, Option, none, some, ◌||◌, if◌then◌else◌, str_eq, get_or}
use code_workflow.Prelude.Int.{ℤ, pos}
use code_workflow.Gitops.{parse_role_branch}
use code_workflow.Store.Rows.{Store, Session}
use code_workflow.Store.Sessions.{
  SessionView, get_session, get_session_by_design_pr, get_session_by_feature_pr,
}
use code_workflow.SessionLoop.Process.{Incoming, is_pull_event, session_key_of}

-- The issue, the key of its session, and the session if it is stored.
pub record Resolved : Type 0 where
  pub issue_num : ℤ
  pub session_key : String
  pub session : Option Session

abbrev pub row_of : Option SessionView → Option Session
row_of none = none
row_of (some v) = some v.session

abbrev pub by_issue : String → ℤ → Store → Resolved
by_issue repo n s = record {
  issue_num = n;
  session_key = session_key_of repo n;
  session = row_of (get_session (session_key_of repo n) s);
}

abbrev remapped : Session → Resolved
remapped x = record { issue_num = pos x.issue_num; session_key = x.session_key; session = some x }

abbrev or_else : Resolved → Option SessionView → Resolved
or_else other none = other
or_else other (some v) = remapped v.session

-- The number of the pull request that a comment or an event on one is about.
abbrev pub pull_number_of : Incoming → ℕ → Option ℕ
pull_number_of e issue_num =
    if str_eq e.event "issue_comment"
    then if e.issue_is_pull then e.issue_number else none
    else if is_pull_event e.event
    then some (get_or issue_num e.pull_number)
    else none

-- Without a session for the issue's own number: by the design's pull request, then the feature's.
abbrev by_pull : Incoming → ℕ → ℕ → Store → Option Session → Resolved
by_pull e issue_num pr s (some x) = by_issue e.repo (pos issue_num) s
by_pull e issue_num pr s none =
    or_else (or_else (by_issue e.repo (pos issue_num) s) (get_session_by_feature_pr e.repo pr s))
      (get_session_by_design_pr e.repo pr s)

abbrev by_number : Incoming → ℕ → Store → Option ℕ → Resolved
by_number e issue_num s none = by_issue e.repo (pos issue_num) s
by_number e issue_num s (some pr) =
    by_pull e issue_num pr s (by_issue e.repo (pos issue_num) s).session

abbrev by_branch : Incoming → ℕ → Store → Option (ℤ × String) → Resolved
by_branch e issue_num s none = by_number e issue_num s (pull_number_of e issue_num)
by_branch e issue_num s (some p) = by_issue e.repo p.0 s

unfoldable pub resolve_session_for_delivery : Incoming → ℕ → Store → Resolved
resolve_session_for_delivery e issue_num s =
    by_branch e issue_num s
      (if is_pull_event e.event then parse_role_branch e.head_ref e.repo else none)

unfoldable pub pr_author_login : Incoming → Option String
pr_author_login e =
    if str_eq e.event "pull_request_review" || str_eq e.event "pull_request_review_comment"
    then e.pull_author
    else if str_eq e.event "issue_comment"
    then if e.issue_is_pull then e.issue_author else none
    else none

abbrev as_ℤ : Option ℕ → Option ℤ
as_ℤ none = none
as_ℤ (some n) = some (pos n)

unfoldable pub pr_number_from_payload : Incoming → ℤ → Option ℤ
pr_number_from_payload e issue_num =
    if is_pull_event e.event
    then some (get_or issue_num (as_ℤ e.pull_number))
    else if str_eq e.event "issue_comment"
    then if e.issue_is_pull then as_ℤ e.issue_number else none
    else none

abbrev pub payload_head_sha : Incoming → Option String
payload_head_sha e = if str_eq e.event "pull_request" then e.head_sha else none
