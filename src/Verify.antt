-- ===== src/Verify.antt =====
-- agentd/src/agentd/verify.py: what GitHub must show before a privileged transition.
-- GitHub's REST and GraphQL answers are a parameter: a record of functions into the documented
-- shapes, in which a field is `none` when it is absent, null or empty. An outer `none` is an exception
-- of the call. A text that the source builds for a person is a constructor of `Reason`.
pub mod Approver
pub mod CheckClasses
pub mod Checks
pub mod Merge
pub mod Feature
pub mod BranchRules
pub mod Rules
use code_workflow.Prelude.{
  ℕ, ◌≡◌, String, Option, none, some, List, [], ◌∷◌, ◌++◌, Bool, true, false, not, ◌&&◌, ◌||◌, ◌==◌,
  leb, ltb, if◌then◌else◌, str_eq, any, get_or, lower, upper, strip, is_none,
}

-- `commit_id` is `rev.get("commit_id") or rev.get("commitId")`.
pub record Review : Type 0 where
  pub login : Option String
  pub state : Option String
  pub commit_id : Option String

pub record Pull : Type 0 where
  pub head_sha : Option String
  pub mergeable_state : Option String

pub record CheckRun : Type 0 where
  pub name : Option String
  pub status : Option String
  pub conclusion : Option String

pub record CommitStatus : Type 0 where
  pub context : Option String
  pub state : Option String

-- The parameters of a `pull_request` rule; a count that is no number is absent.
pub record RuleParameters : Type 0 where
  pub required_approving_review_count : Option ℕ
  pub require_last_push_approval : Option Bool
  pub dismiss_stale_reviews_on_push : Option Bool
  pub required_review_thread_resolution : Option Bool

pub data Rule : Type 0 where
  not_dict : Rule
  rule : String → RuleParameters → Rule

-- An inner `none` is an answer that is not a list.
pub record Github : Type 0 where
  pub reviews : String → ℕ → Option (Option (List Review))
  pub pull : String → ℕ → Option Pull
  pub check_runs : String → String → Option (Option (List CheckRun))
  pub statuses : String → String → Option (Option (List CommitStatus))
  pub branch_rules : String → String → Option (Option (List Rule))
  -- the unresolved review threads, `none` where the fetch gives no number
  pub unresolved_threads : String → ℕ → Option ℕ

pub data Reason : Type 0 where
  no_token missing_head missing_pr api_error checks_api_error : Reason
  no_review : String → Reason
  not_approved : String → Option String → Reason
  stale_approval : String → String → Reason
  approved_on_head : Reason
  checks_failed : List String → Reason
  -- the missing and the pending names
  checks_settling : List String → List String → Reason
  checks_success : Reason
  still_computing : Option String → Reason
  dirty unresolved_blocked blocked_retry blocked_permanent : Reason
  not_clean : String → Reason
  -- whether required checks were configured
  merge_ready : Bool → Reason

pub record ApprovalCheck : Type 0 where
  pub ok : Bool
  pub reason : Reason
  pub transient : Bool
  pub superseded : Bool

abbrev pub approved : Reason → ApprovalCheck
approved r = record { ok = true; reason = r; transient = false; superseded = false }

abbrev pub refused : Reason → ApprovalCheck
refused r = record { ok = false; reason = r; transient = false; superseded = false }

abbrev pub retry : Reason → ApprovalCheck
retry r = record { ok = false; reason = r; transient = true; superseded = false }

abbrev pub supersede : Reason → ApprovalCheck
supersede r = record { ok = false; reason = r; transient = false; superseded = true }

-- st in _MERGE_AUTH_VERDICTS
abbrev pub is_verdict : String → Bool
is_verdict st = str_eq st "APPROVED" || str_eq st "CHANGES_REQUESTED" || str_eq st "DISMISSED"

-- The login and the state as the loop over the reviews normalises them.
abbrev pub user_of : Review → String
user_of r = lower (get_or "" r.login)

abbrev pub state_of : Review → String
state_of r = upper (get_or "" r.state)

-- The review counts as a verdict of `want`.
abbrev pub is_verdict_of : String → Review → Bool
is_verdict_of want r =
    not (str_eq (user_of r) "") && is_verdict (state_of r) && str_eq (user_of r) want

-- `latest.get(want)` after the loop: a later verdict of the user replaces an earlier one.
unfoldable pub latest_verdict : String → Option Review → List Review → Option Review
latest_verdict want latest [] = latest
latest_verdict want latest (r ∷ rs) =
    latest_verdict want (if is_verdict_of want r then some r else latest) rs

abbrev pub is_stale : Option String → String → Bool
is_stale none head = false
is_stale (some sha) head = not (str_eq sha "") && not (str_eq sha head)

abbrev pub judge : String → String → Option Review → ApprovalCheck
judge expected head none = refused (no_review expected)
judge expected head (some r) =
    if str_eq (state_of r) "CHANGES_REQUESTED" || str_eq (state_of r) "DISMISSED"
    then supersede (not_approved expected r.state)
    else if not (str_eq (state_of r) "APPROVED")
    then refused (not_approved expected r.state)
    else if is_stale r.commit_id head
    then supersede (stale_approval (get_or "" r.commit_id) head)
    else approved approved_on_head

-- `isinstance(reviews, list)`: anything else has no reviews
unfoldable pub check_approver_on_head :
    Option (List Review) → Pull → String → String → ApprovalCheck
unfolding latest_verdict
check_approver_on_head reviews pr expected head_sha =
    let head = get_or head_sha pr.head_sha in
    judge expected head (latest_verdict (lower expected) none (get_or [] reviews))

unfoldable pub verify_design_approval :
    Github → String → ℕ → String → Option String → Option String → ApprovalCheck
verify_design_approval github repo pr_number expected head_sha token = elim token [
  | none ↦ refused no_token
  | some t ↦ elim head_sha [
    | none ↦ refused missing_head
    | some head ↦
        if pr_number == 0 then refused missing_pr else elim (github.reviews repo pr_number) [
          | none ↦ refused api_error
          | some reviews ↦ elim (github.pull repo pr_number) [
            | none ↦ refused api_error
            | some pr ↦ check_approver_on_head reviews pr expected head
          ]
        ]
  ]
]
