-- ===== src/Verify/BranchRules.antt =====
-- `verify_branch_pull_request_rules` of agentd/src/agentd/verify.py.
use code_workflow.Prelude.{
  ℕ, String, Option, none, some, List, [], ◌∷◌, Bool, false, ◌||◌, leb, if◌then◌else◌, str_eq,
  get_or,
}
use code_workflow.Verify.{RuleParameters, Rule, not_dict, rule, Github}

-- The loop over the rules: the last `pull_request` rule, and whether any asks for status checks.
unfoldable pub last_pr_rule : Option RuleParameters → List Rule → Option RuleParameters
last_pr_rule found [] = found
last_pr_rule found (not_dict ∷ rs) = last_pr_rule found rs
last_pr_rule found (rule type params ∷ rs) =
    last_pr_rule (if str_eq type "pull_request" then some params else found) rs

abbrev pub has_status_checks : List Rule → Bool
has_status_checks [] = false
has_status_checks (not_dict ∷ rs) = has_status_checks rs
has_status_checks (rule type params ∷ rs) =
    str_eq type "required_status_checks" || has_status_checks rs

pub data RulesReason : Type 0 where
  no_rules_token no_repo_or_branch rules_api_error not_a_list no_pull_request_rule : RulesReason
  too_few_reviews : ℕ → ℕ → RulesReason
  rule_ok : ℕ → ℕ → RulesReason

pub record BranchRulesCheck : Type 0 where
  pub ok : Bool
  pub reason : RulesReason
  pub required_approving_review_count : Option ℕ
  pub require_last_push_approval : Option Bool
  pub dismiss_stale_reviews_on_push : Option Bool
  pub required_review_thread_resolution : Option Bool
  pub has_required_status_checks : Bool

abbrev no_rule : RulesReason → Bool → BranchRulesCheck
no_rule r status_checks = record {
  ok = false;
  reason = r;
  required_approving_review_count = none;
  require_last_push_approval = none;
  dismiss_stale_reviews_on_push = none;
  required_review_thread_resolution = none;
  has_required_status_checks = status_checks;
}

abbrev judge_rule : ℕ → Bool → Option RuleParameters → BranchRulesCheck
judge_rule min_reviews status_checks none = no_rule no_pull_request_rule status_checks
judge_rule min_reviews status_checks (some p) =
    let count = get_or 0 p.required_approving_review_count in
    let enough = leb min_reviews count in
    record {
      ok = enough;
      reason = if enough then rule_ok count min_reviews else too_few_reviews count min_reviews;
      required_approving_review_count = some count;
      require_last_push_approval = p.require_last_push_approval;
      dismiss_stale_reviews_on_push = p.dismiss_stale_reviews_on_push;
      required_review_thread_resolution = p.required_review_thread_resolution;
      has_required_status_checks = status_checks;
    }

unfoldable pub verify_branch_pull_request_rules :
    Github → String → String → Option String → ℕ → BranchRulesCheck
unfolding last_pr_rule
verify_branch_pull_request_rules github repo branch token min_reviews = elim token [
  | none ↦ no_rule no_rules_token false
  | some t ↦
      if str_eq repo "" || str_eq branch ""
      then no_rule no_repo_or_branch false
      else elim (github.branch_rules repo branch) [
        | none ↦ no_rule rules_api_error false
        | some answer ↦ elim answer [
          | none ↦ no_rule not_a_list false
          | some rules ↦ judge_rule min_reviews (has_status_checks rules) (last_pr_rule none rules)
        ]
      ]
]
