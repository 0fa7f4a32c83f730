-- ===== src/Verify/CheckClasses.antt =====
-- `_classify_required_checks` of agentd/src/agentd/verify.py.
use code_workflow.Prelude.{
  String, Option, none, some, List, [], ◌∷◌, Bool, true, false, not, ◌&&◌, if◌then◌else◌, str_eq,
  any, get_or, lower,
}
use code_workflow.Verify.{
  CheckRun, CommitStatus, Reason, checks_failed, checks_settling, checks_success,
}

-- state in _PENDING_CHECK_STATES
abbrev pub is_pending : String → Bool
is_pending st =
    any (str_eq st)
      ("pending" ∷ "queued" ∷ "in_progress" ∷ "waiting" ∷ "requested" ∷ "expected" ∷ [])

-- `by_name` is a function of the name: what the last run or status of that name says.
abbrev run_state : CheckRun → String
run_state r =
    if str_eq (get_or "" r.status) "completed"
    then lower (get_or "" r.conclusion)
    else lower (get_or "pending" r.status)

abbrev is_named : Option String → String → Bool
is_named none name = false
is_named (some n) name = not (str_eq n "") && str_eq n name

unfoldable pub read_runs : String → Option String → List CheckRun → Option String
read_runs name state [] = state
read_runs name state (r ∷ rs) =
    read_runs name (if is_named r.name name then some (run_state r) else state) rs

unfoldable pub read_statuses : String → Option String → List CommitStatus → Option String
read_statuses name state [] = state
read_statuses name state (s ∷ ss) =
    read_statuses name (if is_named s.context name then some (lower (get_or "" s.state)) else state)
      ss

pub data CheckState : Type 0 where
  missing success pending failed : CheckState

abbrev pub classify : Option String → CheckState
classify none = missing
classify (some st) =
    if str_eq st "success" then success else if is_pending st then pending else failed

abbrev pub is_failed : CheckState → Bool
is_failed failed = true
is_failed _ = false

abbrev pub is_settling : CheckState → Bool
is_settling missing = true
is_settling pending = true
is_settling _ = false

abbrev is_missing : CheckState → Bool
is_missing missing = true
is_missing _ = false

pub record CheckClass : Type 0 where
  pub all_success : Bool
  pub pending : Bool
  pub permanent_fail : Bool
  pub reason : Reason

abbrev pub by_name : List CheckRun → List CommitStatus → String → Option String
by_name runs statuses name = read_statuses name (read_runs name none runs) statuses

-- the names of one class, in the order of `required_checks`
abbrev names_where : (String → Bool) → List String → List String
names_where p [] = []
names_where p (n ∷ ns) = let rest = names_where p ns in if p n then n ∷ rest else rest

-- The three lists of the loop are read from the classes of the names.
unfoldable pub classify_required_checks :
    List CheckRun → List CommitStatus → List String → CheckClass
unfolding read_runs read_statuses
classify_required_checks runs statuses required =
    let state = λ (n : String). classify (by_name runs statuses n) in
    if any (λ n. is_failed (state n)) required
    then record {
      all_success = false;
      pending = false;
      permanent_fail = true;
      reason = checks_failed (names_where (λ n. is_failed (state n)) required);
    }
    else if any (λ n. is_settling (state n)) required
    then record {
      all_success = false;
      pending = true;
      permanent_fail = false;
      reason =
          checks_settling (names_where (λ n. is_missing (state n)) required)
            (names_where (λ n. is_settling (state n) && not (is_missing (state n))) required);
    }
    else record {
      all_success = true;
      pending = false;
      permanent_fail = false;
      reason = checks_success;
    }
