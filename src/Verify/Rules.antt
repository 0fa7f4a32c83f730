-- ===== src/Verify/Rules.antt =====
-- The branch rules check of verify.py.
use code_workflow.Prelude.{
  ℕ, ◌≡◌, ◌⊎◌, refl, String, Option, none, some, List, [], ◌∷◌, ◌++◌, true, ◌||◌, arith, str_eq,
  eq_iff, All, get_or, Bool-cases, Option-cases, inl, inr, ap, ◌≤◌,
}
use code_workflow.Verify.{Github, Rule, not_dict, rule, RuleParameters}
use code_workflow.Verify.BranchRules.{last_pr_rule, verify_branch_pull_request_rules}

-- The rule is no `pull_request` rule.
abbrev pub IsOtherRule : Rule → Type 0
IsOtherRule not_dict = Unit
IsOtherRule (rule type params) = ¬ (type ≡ "pull_request")

-- The last `pull_request` rule of the list has these parameters.
pub record IsLastRule (rules : List Rule) (p : RuleParameters) : Type 0 where
  pub before : List Rule
  pub after : List Rule
  pub split : rules ≡ before ++ rule "pull_request" p ∷ after
  pub none_after : All IsOtherRule after

push : (r : Rule) (rs : List Rule) (p : RuleParameters) → IsLastRule rs p → IsLastRule (r ∷ rs) p
push r rs p l = record {
  before = r ∷ l.before;
  after = l.after;
  split = ap (λ t. r ∷ t) l.split;
  none_after = l.none_after;
}

last_pr_rule_cases :
    (found : Option RuleParameters) (rules : List Rule)
    → ((last_pr_rule found rules ≡ found) × All IsOtherRule rules)
      ⊎ ((p : RuleParameters) × (last_pr_rule found rules ≡ some p) × IsLastRule rules p)
unfolding last_pr_rule
last_pr_rule_cases found [] = inl (refl, tt)
last_pr_rule_cases found (not_dict ∷ rs) = elim (last_pr_rule_cases found rs) [
  | inl (e, others) ↦ inl (e, (tt, others))
  | inr (p, e, l) ↦ inr (p, e, push not_dict rs p l)
]
last_pr_rule_cases found (rule type q ∷ rs) = elim (Bool-cases (str_eq type "pull_request")) [
  | inl e ↦ elim (last_pr_rule_cases (some q) rs) [
    | inl (f, others) ↦ inr (
      q,
      rw e f,
      record {
        before = [];
        after = rs;
        split = ap (λ t. rule t q ∷ rs) ((eq_iff type "pull_request").0 e);
        none_after = others;
      },
    )
    | inr (p, f, l) ↦ inr (p, rw e f, push (rule type q) rs p l)
  ]
  | inr e ↦ elim (last_pr_rule_cases found rs) [
    | inl (f, others) ↦ inl (rw e f, ((λ same. ground (arith, eq_iff type "pull_request")), others))
    | inr (p, f, l) ↦ inr (p, rw e f, push (rule type q) rs p l)
  ]
]

-- With a token, the branch rules pass only where GitHub answers with a list whose last
-- `pull_request` rule asks for at least the minimum of approving reviews, and the result reports
-- that count.
pub verify_branch_pull_request_rules_ok :
    (github : Github) (repo branch token : String) (min_reviews : ℕ)
    → (verify_branch_pull_request_rules github repo branch (some token) min_reviews).ok ≡ true
    → (rules : List Rule) × (p : RuleParameters) × (github.branch_rules repo branch
        ≡ some (some rules))
      × IsLastRule rules p
      × (min_reviews ≤ get_or 0 p.required_approving_review_count)
      × ((verify_branch_pull_request_rules github repo branch
            (some token)
            min_reviews).required_approving_review_count
          ≡ some (get_or 0 p.required_approving_review_count))
unfolding verify_branch_pull_request_rules
verify_branch_pull_request_rules_ok github repo branch token min_reviews h =
    elim (Bool-cases (str_eq repo "" || str_eq branch "")) [
      | inl e ↦ cc (rw e at h)
      | inr e ↦ elim (Option-cases (github.branch_rules repo branch)) [
        | inl f ↦ cc (rw (e, f) at h)
        | inr (none, f) ↦ cc (rw (e, f) at h)
        | inr (some rules, f) ↦ elim (last_pr_rule_cases none rules) [
          | inl (g, others) ↦ cc (rw (e, f, g) at h)
          | inr (p, g, l) ↦ (rules, p, f, l, ground (arith, (rw (e, f, g) at h)), rw (e, f, g) refl)
        ]
      ]
    ]
