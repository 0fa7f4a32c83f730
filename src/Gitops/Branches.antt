-- ===== src/Gitops/Branches.antt =====
-- Reading the branch names that `role_branch_name` of gitops.py prints.
use code_workflow.Prelude.{String, false, ◌≡◌, refl, some, suc, arith, str_eq}
use code_workflow.Prelude.Int.{ℤ, pos, negsuc}
use code_workflow.Prelude.Decimal.{decimal, decimal_ℤ}
use code_workflow.Prelude.Decimal.Laws.{parse_int-decimal_ℤ, decimal-AllDigits, AllDigits}
use code_workflow.Prelude.Split.{
  ◌+++◌, is_empty, drop_prefix, has_char, drop_prefix-append, partition-append,
}
use code_workflow.Gitops.{
  branch_prefix, role_branch_name, parse_role_branch, parse_role_rest, is_design_head_ref,
  is_feature_head_ref,
}

digits-has_char : (s : String) → AllDigits s → has_char "/" s ≡ false
unfolding has_char
digits-has_char String.[] h = refl
digits-has_char (String.◌∷◌ c s) h = ground (arith, digits-has_char s h.1, h.0)

decimal_ℤ-has_char : (n : ℤ) → has_char "/" (decimal_ℤ n) ≡ false
unfolding decimal_ℤ has_char
decimal_ℤ-has_char (pos n) = digits-has_char (decimal n) (decimal-AllDigits n)
decimal_ℤ-has_char (negsuc n) = digits-has_char (decimal (suc n)) (decimal-AllDigits (suc n))

parse_role_rest-text :
    (n : ℤ) (role : String)
    → is_empty role ≡ false
    → has_char "/" role ≡ false
    → parse_role_rest (some (decimal_ℤ n +++ "/" +++ role)) ≡ some (n, role)
unfolding parse_role_rest
parse_role_rest-text n role e h =
    rw (partition-append "/" (decimal_ℤ n) role (decimal_ℤ-has_char n), e, h, parse_int-decimal_ℤ n)
      refl

role_branch_name-drop_prefix :
    (repo : String) (n : ℤ) (role : String)
    → drop_prefix (branch_prefix repo) (role_branch_name repo n role)
      ≡ some (decimal_ℤ n +++ "/" +++ role)
unfolding role_branch_name
role_branch_name-drop_prefix repo n role =
    drop_prefix-append (branch_prefix repo) (decimal_ℤ n +++ "/" +++ role)

role_branch_name-is_empty :
    (repo : String) (n : ℤ) (role : String) → is_empty (role_branch_name repo n role) ≡ false
unfolding role_branch_name branch_prefix
role_branch_name-is_empty repo n role = refl

-- Reading the branch name that was made for a repository, an issue and a role gives that issue and
-- that role, if the repository's name and the role are not empty and the role has no slash.
pub parse_role_branch-role_branch_name :
    (repo : String) (n : ℤ) (role : String)
    → is_empty repo ≡ false
    → is_empty role ≡ false
    → has_char "/" role ≡ false
    → parse_role_branch (some (role_branch_name repo n role)) repo ≡ some (n, role)
unfolding parse_role_branch
parse_role_branch-role_branch_name repo n role r e h =
    rw (role_branch_name-is_empty repo n role, r, role_branch_name-drop_prefix repo n role)
      (parse_role_rest-text n role e h)

-- A branch made for a role is a design branch exactly if the role is the architect, and a feature
-- branch exactly if it is the developer, under the same conditions.
pub head_ref_role :
    (repo : String) (n : ℤ) (role : String)
    → is_empty repo ≡ false
    → is_empty role ≡ false
    → has_char "/" role ≡ false
    → (is_design_head_ref (some (role_branch_name repo n role)) repo ≡ str_eq role "architect")
      × (is_feature_head_ref (some (role_branch_name repo n role)) repo ≡ str_eq role "developer")
unfolding is_design_head_ref is_feature_head_ref
head_ref_role repo n role r e h =
    let parsed = parse_role_branch-role_branch_name repo n role r e h in
    (rw parsed refl, rw parsed refl)
