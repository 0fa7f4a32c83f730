-- ===== src/Verify/Merge.antt =====
-- `verify_feature_merge` of agentd/src/agentd/verify.py.
use code_workflow.Prelude.{
  ℕ, String, Option, none, some, List, [], ◌∷◌, Bool, true, false, not, ◌&&◌, ◌||◌, ◌==◌, ltb,
  if◌then◌else◌, str_eq, get_or, lower, strip,
}
use code_workflow.Verify.{
  Review, Pull, Github, Reason, no_token, missing_head, missing_pr, api_error, checks_api_error,
  checks_success, still_computing, dirty, unresolved_blocked, blocked_retry, blocked_permanent,
  not_clean, merge_ready, ApprovalCheck, approved, refused, retry, check_approver_on_head,
}
use code_workflow.Verify.CheckClasses.{CheckClass, classify_required_checks}

-- str(raw_ms).lower(), '' for null
abbrev pub merge_state : Pull → String
merge_state pr = lower (get_or "" pr.mergeable_state)

-- unresolved is not None and unresolved > 0
abbrev pub has_unresolved : Option ℕ → Bool
has_unresolved none = false
has_unresolved (some n) = ltb 0 n

-- The checks as `verify_feature_merge` keeps them: none wanted, or their class.
abbrev pub is_wanted : Option CheckClass → Bool
is_wanted none = false
is_wanted (some c) = true

abbrev pub checks_pending : Option CheckClass → Bool
checks_pending none = false
checks_pending (some c) = c.pending

abbrev pub checks_all_success : Option CheckClass → Bool
checks_all_success none = true
checks_all_success (some c) = c.all_success

abbrev pub checks_reason : Option CheckClass → Reason
checks_reason none = checks_success
checks_reason (some c) = c.reason

-- From `mergeable_state` to the end, the threads being fetched on `blocked` alone.
unfoldable pub judge_merge : Pull → Option ℕ → Option CheckClass → ApprovalCheck
judge_merge pr unresolved checks =
    let ms = merge_state pr in
    if str_eq ms "" || str_eq ms "unknown" || str_eq ms "unstable"
    then retry (still_computing pr.mergeable_state)
    else if str_eq ms "dirty"
    then refused dirty
    else if str_eq ms "blocked"
    then if has_unresolved unresolved
      then refused unresolved_blocked
      else if checks_pending checks || not (is_wanted checks)
      then retry blocked_retry
      else if checks_all_success checks
      then refused blocked_permanent
      else retry blocked_retry
    else if not (str_eq ms "clean")
    then refused (not_clean ms)
    else if is_wanted checks && checks_pending checks
    then retry (checks_reason checks)
    else if is_wanted checks && not (checks_all_success checks)
    then refused (checks_reason checks)
    else approved (merge_ready (is_wanted checks))

-- The checks' part, before the merge state is looked at: a permanent failure ends the check.
unfoldable pub judge_checks : Pull → Option ℕ → CheckClass → ApprovalCheck
unfolding judge_merge
judge_checks pr unresolved c =
    if c.permanent_fail || not c.all_success && not c.pending
    then refused c.reason
    else judge_merge pr unresolved (some c)

-- str(c).strip()
abbrev pub wanted_checks : List String → List String
wanted_checks [] = []
wanted_checks (c ∷ cs) =
    let rest = wanted_checks cs in if str_eq (strip c) "" then rest else c ∷ rest

module _ (github : Github) where
  unfoldable pub classified : String → String → List String → Option CheckClass
  classified repo sha wanted = elim (github.check_runs repo sha) [
    | none ↦ none
    | some runs ↦ elim (github.statuses repo sha) [
      | none ↦ none
      | some statuses ↦ some (classify_required_checks (get_or [] runs) (get_or [] statuses) wanted)
    ]
  ]

  -- with no named checks the commit is not asked for any
  unfoldable pub judge_wanted : String → ℕ → String → Pull → List String → ApprovalCheck
  unfolding classified judge_checks
  judge_wanted repo pr_number live_head pr [] =
      judge_merge pr (github.unresolved_threads repo pr_number) none
  judge_wanted repo pr_number live_head pr (c ∷ cs) = elim (classified repo live_head (c ∷ cs)) [
    | none ↦ retry checks_api_error
    | some k ↦ judge_checks pr (github.unresolved_threads repo pr_number) k
  ]

  unfoldable pub judge_feature :
      String → ℕ → String → String → List String → Option (List Review) → Pull → ApprovalCheck
  unfolding judge_wanted
  judge_feature repo pr_number expected head_sha required reviews pr =
      let approval = check_approver_on_head reviews pr expected head_sha in
      if not approval.ok
      then approval
      else judge_wanted repo pr_number (get_or head_sha pr.head_sha) pr (wanted_checks required)

  -- A token or a head that is absent or empty is `none`.
  unfoldable pub verify_feature_merge :
      String → ℕ → String → Option String → Option String → List String → ApprovalCheck
  unfolding judge_feature
  verify_feature_merge repo pr_number expected head_sha token required = elim token [
    | none ↦ refused no_token
    | some t ↦ elim head_sha [
      | none ↦ refused missing_head
      | some head ↦
          if pr_number == 0 then refused missing_pr else elim (github.reviews repo pr_number) [
            | none ↦ retry api_error
            | some reviews ↦ elim (github.pull repo pr_number) [
              | none ↦ retry api_error
              | some pr ↦ judge_feature repo pr_number expected head required reviews pr
            ]
          ]
    ]
  ]
