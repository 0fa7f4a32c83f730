-- ===== src/Verify/Feature.antt =====
-- What authorises the merge of a Feature PR in verify.py.
use code_workflow.Prelude.{
  ℕ, ◌<◌, ◌≡◌, ◌↔◌, refl, String, Option, none, some, List, [], ◌∷◌, Bool, true, false, not, ◌&&◌,
  ◌||◌, arith, if◌then◌else◌, eq_iff, All, get_or, Bool-cases, Option-cases, inl, inr, ◌==◌,
}
use code_workflow.Verify.{
  Github, Review, Pull, CheckRun, CommitStatus, ApprovalCheck, retry, api_error,
  check_approver_on_head,
}
use code_workflow.Verify.CheckClasses.{CheckClass, classify_required_checks}
use code_workflow.Verify.Merge.{
  merge_state, wanted_checks, judge_merge, judge_checks, judge_wanted, judge_feature, classified,
  verify_feature_merge,
}
use code_workflow.Verify.Approver.{IsOneOf, check_approver_on_head-IsOneOf}
use code_workflow.Verify.Checks.{Succeeds, classify_required_checks_lem}

-- Without named checks the merge state alone decides.
judge_merge-none :
    (pr : Pull) (unresolved : Option ℕ)
    → ((judge_merge pr unresolved none).ok ≡ true) ↔ (merge_state pr ≡ "clean")
unfolding judge_merge
judge_merge-none pr unresolved =
    (λ h. ground (arith, eq_iff (merge_state pr) "clean"), λ h. rw h refl)

judge_checks_ok :
    (pr : Pull) (unresolved : Option ℕ) (c : CheckClass)
    → ((judge_checks pr unresolved c).ok ≡ true) ↔ (
        (c.permanent_fail ≡ false)
        × (c.all_success ≡ true)
        × (c.pending ≡ false)
        × (merge_state pr ≡ "clean"))
unfolding judge_checks
judge_checks_ok pr unresolved c = (
  λ h. ground (arith, eq_iff (merge_state pr) "clean"),
  λ (fail, done, waits, clean). rw (fail, done, waits, clean) refl,
)

judge_merge-IsOneOf :
    (pr : Pull) (unresolved : Option ℕ) (checks : Option CheckClass)
    → IsOneOf (judge_merge pr unresolved checks)
unfolding judge_merge
judge_merge-IsOneOf pr unresolved checks = ground arith

judge_checks-IsOneOf :
    (pr : Pull) (unresolved : Option ℕ) (c : CheckClass) → IsOneOf (judge_checks pr unresolved c)
unfolding judge_checks
judge_checks-IsOneOf pr unresolved c =
    elim (Bool-cases (c.permanent_fail || not c.all_success && not c.pending)) [
      | inl e ↦ rw e (refl, refl, refl)
      | inr e ↦ rw e (judge_merge-IsOneOf pr unresolved (some c))
    ]

module _ (github : Github) (repo : String) (pr_number : ℕ) (expected head : String) (token : String)
    (required : List String) (reviews : Option (List Review)) (pr : Pull)
    (runs : Option (List CheckRun)) (statuses : Option (List CommitStatus))
    (reviews_answer : github.reviews repo pr_number ≡ some reviews)
    (pull_answer : github.pull repo pr_number ≡ some pr)
    (runs_answer : github.check_runs repo (get_or head pr.head_sha) ≡ some runs)
    (statuses_answer : github.statuses repo (get_or head pr.head_sha) ≡ some statuses) where
  wanted_ok :
      (names : List String)
      → ((judge_wanted github repo pr_number (get_or head pr.head_sha) pr names).ok ≡ true)
        ↔ (All (Succeeds (get_or [] runs) (get_or [] statuses)) names × (merge_state pr ≡ "clean"))
  unfolding judge_wanted
  wanted_ok [] =
      let none_wanted = judge_merge-none pr (github.unresolved_threads repo pr_number) in
      (λ h. (tt, none_wanted.0 h), λ h. none_wanted.1 h.1)
  wanted_ok (n ∷ ns) =
      let k = classify_required_checks (get_or [] runs) (get_or [] statuses) (n ∷ ns) in
      let decided = judge_checks_ok pr (github.unresolved_threads repo pr_number) k in
      let classes = classify_required_checks_lem (get_or [] runs) (get_or [] statuses) (n ∷ ns) in
      rw (judge_wanted, classified, runs_answer, statuses_answer)
        (
          λ h. let d = decided.0 h in (classes.0.0 d.1, d.3),
          λ h. decided.1 (ground (arith, classes, classes.0.1 h.0)),
        )

  -- For a numbered pull request, with a token and a head, and where GitHub answers its four calls:
  -- a merge is authorised exactly if the approver's check passes, every required check that is not
  -- blank was last reported as a success on the live head, and the merge state is clean.
  pub verify_feature_merge_ok :
      0 < pr_number
      → ((verify_feature_merge github repo pr_number expected (some head) (some token) required).ok
          ≡ true)
        ↔ (((check_approver_on_head reviews pr expected head).ok ≡ true)
            × All (Succeeds (get_or [] runs) (get_or [] statuses)) (wanted_checks required)
            × (merge_state pr ≡ "clean"))
  unfolding verify_feature_merge
  verify_feature_merge_ok h =
      let some_pr : (pr_number == 0) ≡ false = ground arith in
      let wanted = wanted_ok (wanted_checks required) in
      elim (Bool-cases (check_approver_on_head reviews pr expected head).ok) [
        | inl e ↦
            rw (some_pr, reviews_answer, pull_answer, e)
              (λ k. (refl, (wanted.0 k).0, (wanted.0 k).1), λ k. wanted.1 (k.1, k.2))
        | inr e ↦ rw (some_pr, reviews_answer, pull_answer, e) (λ k. cc k, λ k. cc k.0)
      ]

either : (b : Bool) (c d : ApprovalCheck) → IsOneOf c → IsOneOf d → IsOneOf (if b then c else d)
either true c d hc hd = hc
either false c d hc hd = hd

-- The answer of a merge check is one of four: authorised, refused, retried later or superseded.
pub verify_feature_merge-IsOneOf :
    (github : Github) (repo : String) (pr_number : ℕ) (expected : String)
    (head_sha token : Option String) (required : List String)
    → IsOneOf (verify_feature_merge github repo pr_number expected head_sha token required)
unfolding verify_feature_merge judge_feature
verify_feature_merge-IsOneOf github repo pr_number expected head_sha none required =
    (refl, refl, refl)
verify_feature_merge-IsOneOf github repo pr_number expected none (some token) required =
    (refl, refl, refl)
verify_feature_merge-IsOneOf github repo pr_number expected (some head) (some token) required =
    elim (Bool-cases (pr_number == 0)) [
      | inl e ↦ rw e (refl, refl, refl)
      | inr e ↦ rw e (of_reviews (github.reviews repo pr_number) (github.pull repo pr_number))
    ]
  where
    of_wanted :
        (pr : Pull) (sha : String) (names : List String)
        → IsOneOf (judge_wanted github repo pr_number sha pr names)
    of_wanted pr sha [] = judge_merge-IsOneOf pr (github.unresolved_threads repo pr_number) none
    of_wanted pr sha (n ∷ ns) = elim (Option-cases (classified github repo sha (n ∷ ns))) [
      | inl e ↦ rw (judge_wanted, e) (refl, refl, refl)
      | inr (k, e) ↦
          rw (judge_wanted, e)
            (judge_checks-IsOneOf pr (github.unresolved_threads repo pr_number) k)
    ]

    of_feature :
        (reviews : Option (List Review)) (pr : Pull)
        → IsOneOf (judge_feature github repo pr_number expected head required reviews pr)
    of_feature reviews pr =
        either (not (check_approver_on_head reviews pr expected head).ok)
          (check_approver_on_head reviews pr expected head)
          (judge_wanted github repo pr_number (get_or head pr.head_sha) pr (wanted_checks required))
          (check_approver_on_head-IsOneOf reviews pr expected head).0
          (of_wanted pr (get_or head pr.head_sha) (wanted_checks required))

    of_reviews :
        (reviews : Option (Option (List Review))) (pull : Option Pull)
        → IsOneOf (elim reviews [
          | none ↦ retry api_error
          | some rs ↦ elim pull [
            | none ↦ retry api_error
            | some pr ↦ judge_feature github repo pr_number expected head required rs pr
          ]
        ])
    of_reviews none pull = (refl, refl, refl)
    of_reviews (some rs) none = (refl, refl, refl)
    of_reviews (some rs) (some pr) = of_feature rs pr
