-- ===== src/Tests/VerifyTests.antt =====
-- agentd/src/agentd/verify.py on a pull request that may be merged.
use code_workflow.Prelude.{
  ◌≤◌, ◌≡◌, ◌↔◌, refl, none, some, List, [], ◌∷◌, true, false, ◌&&◌, ◌||◌, arith, All, get_or,
  lower, upper, strip,
}
use code_workflow.Verify.{
  Github, Review, Pull, CheckRun, Rule, rule, RuleParameters, state_of, check_approver_on_head,
}
use code_workflow.Verify.CheckClasses.{classify_required_checks}
use code_workflow.Verify.Merge.{merge_state, wanted_checks, verify_feature_merge}
use code_workflow.Verify.BranchRules.{verify_branch_pull_request_rules}
use code_workflow.Verify.Approver.{IsLatest, IsOnHead, check_approver_on_head_ok}
use code_workflow.Verify.Checks.{Succeeds, classify_required_checks_lem}
use code_workflow.Verify.Feature.{verify_feature_merge_ok}
use code_workflow.Verify.Rules.{IsLastRule, verify_branch_pull_request_rules_ok}

abbrev two_reviews : List Review
two_reviews =
    record { login = some "Alice"; state = some "changes_requested"; commit_id = some "aaa" }
    ∷ record { login = some "alice"; state = some "APPROVED"; commit_id = some "bbb" }
    ∷ []

abbrev pub open_pull : Pull
open_pull = record { head_sha = some "bbb"; mergeable_state = some "clean" }

abbrev one_run : List CheckRun
one_run = record { name = some "ci"; status = some "completed"; conclusion = some "SUCCESS" } ∷ []

abbrev two_approvals : RuleParameters
two_approvals = record {
  required_approving_review_count = some 2;
  require_last_push_approval = none;
  dismiss_stale_reviews_on_push = none;
  required_review_thread_resolution = none;
}

abbrev pub some_github : Github
some_github = record {
  reviews = λ repo n. some (some two_reviews);
  pull = λ repo n. some open_pull;
  check_runs = λ repo sha. some (some one_run);
  statuses = λ repo sha. some none;
  branch_rules = λ repo branch. some (some (rule "pull_request" two_approvals ∷ []));
  unresolved_threads = λ repo n. none;
}

verify_feature_merge_ok_example :
    ((verify_feature_merge some_github "o/r" 7 "ALICE" (some "bbb") (some "t") ("ci" ∷ " " ∷ [])).ok
      ≡ true)
    ↔ (((check_approver_on_head (some two_reviews) open_pull "ALICE" "bbb").ok ≡ true)
        × All (Succeeds one_run []) (wanted_checks ("ci" ∷ " " ∷ []))
        × (merge_state open_pull ≡ "clean"))
verify_feature_merge_ok_example =
    verify_feature_merge_ok some_github "o/r" 7 "ALICE" "bbb" "t" ("ci" ∷ " " ∷ [])
      (some two_reviews) open_pull (some one_run) none refl refl refl refl (omega arith)

-- It is authorised.
merge_run :
    (verify_feature_merge some_github "o/r" 7 "ALICE" (some "bbb") (some "t") ("ci" ∷ [])).ok ≡ true
unfolding verify_feature_merge check_approver_on_head classify_required_checks lower upper strip
merge_run = refl

alice_approves : (check_approver_on_head (some two_reviews) open_pull "ALICE" "bbb").ok ≡ true
unfolding check_approver_on_head lower upper
alice_approves = refl

check_approver_on_head_ok_example :
    (r : Review) × IsLatest (lower "ALICE") two_reviews r
    × (state_of r ≡ "APPROVED")
    × IsOnHead "bbb" r.commit_id
check_approver_on_head_ok_example =
    check_approver_on_head_ok two_reviews open_pull "ALICE" "bbb" alice_approves

classify_required_checks_example :
    let c = classify_required_checks one_run [] ("ci" ∷ []) in
    ((c.all_success ≡ true) ↔ All (Succeeds one_run []) ("ci" ∷ []))
    × ((c.all_success && c.pending) ≡ false)
    × ((c.all_success && c.permanent_fail) ≡ false)
    × ((c.pending && c.permanent_fail) ≡ false)
    × ((c.all_success || c.pending || c.permanent_fail) ≡ true)
classify_required_checks_example = classify_required_checks_lem one_run [] ("ci" ∷ [])

rules_pass : (verify_branch_pull_request_rules some_github "o/r" "main" (some "t") 1).ok ≡ true
unfolding verify_branch_pull_request_rules
rules_pass = refl

verify_branch_pull_request_rules_example :
    (rules : List Rule) × (p : RuleParameters) × (some_github.branch_rules "o/r" "main"
      ≡ some (some rules))
    × IsLastRule rules p
    × (1 ≤ get_or 0 p.required_approving_review_count)
    × ((verify_branch_pull_request_rules some_github "o/r" "main"
          (some "t")
          1).required_approving_review_count
        ≡ some (get_or 0 p.required_approving_review_count))
verify_branch_pull_request_rules_example =
    verify_branch_pull_request_rules_ok some_github "o/r" "main" "t" 1 rules_pass
