-- ===== src/Verify/Approver.antt =====
-- The approver's verdict that verify.py looks for among the reviews.
use code_workflow.Prelude.{
  ◌≡◌, ◌⊎◌, inl, inr, refl, sym, ap, String, Option, none, some, List, [], ◌∷◌, ◌++◌, Bool, true,
  false, not, ◌&&◌, ◌||◌, arith, if◌then◌else◌, str_eq, eq_iff, any, get_or, lower, Bool-cases,
}
use code_workflow.Verify.{
  Review, Pull, ApprovalCheck, is_stale, refused, supersede, approved, not_approved, stale_approval,
  approved_on_head, is_verdict_of, state_of, latest_verdict, judge, check_approver_on_head,
}

-- `r` is the last of the reviews that is a verdict of `want`.
pub record IsLatest (want : String) (reviews : List Review) (r : Review) : Type 0 where
  pub before : List Review
  pub after : List Review
  pub split : reviews ≡ before ++ r ∷ after
  pub verdict : is_verdict_of want r ≡ true
  pub none_after : any (is_verdict_of want) after ≡ false

latest_verdict-none :
    (want : String) (acc : Option Review) (rs : List Review)
    → any (is_verdict_of want) rs ≡ false
    → latest_verdict want acc rs ≡ acc
unfolding latest_verdict
latest_verdict-none want acc [] h = refl
latest_verdict-none want acc (r ∷ rs) h = elim (Bool-cases (is_verdict_of want r)) [
  | inl e ↦ cc (sym (rw e at h))
  | inr e ↦ rw e (latest_verdict-none want acc rs (rw e at h))
]

-- The loop of the reviews ends with the last verdict of the user, or with what it began with.
latest_verdict_cases :
    (want : String) (acc : Option Review) (rs : List Review)
    → ((latest_verdict want acc rs ≡ acc) × (any (is_verdict_of want) rs ≡ false))
      ⊎ ((r : Review) × (latest_verdict want acc rs ≡ some r) × IsLatest want rs r)
unfolding latest_verdict
latest_verdict_cases want acc [] = inl (refl, refl)
latest_verdict_cases want acc (r ∷ rs) = elim (Bool-cases (is_verdict_of want r)) [
  | inr e ↦ elim (latest_verdict_cases want acc rs) [
    | inl (same, quiet) ↦ rw e (inl (same, quiet))
    | inr (q, found, l) ↦ rw e (inr (q, found, push r rs q l))
  ]
  | inl e ↦ elim (latest_verdict_cases want (some r) rs) [
    | inl (same, quiet) ↦ rw e (
        inr (
          r,
          same,
          record { before = []; after = rs; split = refl; verdict = e; none_after = quiet },
        ))
    | inr (q, found, l) ↦ rw e (inr (q, found, push r rs q l))
  ]
]
  where
    push :
        (r : Review) (rs : List Review) (q : Review) → IsLatest want rs q → IsLatest want (r ∷ rs) q
    push r rs q l = record {
      before = r ∷ l.before;
      after = l.after;
      split = ap (λ t. r ∷ t) l.split;
      verdict = l.verdict;
      none_after = l.none_after;
    }

-- The commit of a review is the head, or is not known.
abbrev pub IsOnHead : String → Option String → Type 0
IsOnHead head none = Unit
IsOnHead head (some sha) = (sha ≡ "") ⊎ (sha ≡ head)

on_head :
    (head : String) (commit : Option String) → is_stale commit head ≡ false → IsOnHead head commit
on_head head none h = tt
on_head head (some sha) h = ground (arith, eq_iff sha "", eq_iff sha head)

judge_ok :
    (expected head : String) (r : Review)
    → (judge expected head (some r)).ok ≡ true
    → (state_of r ≡ "APPROVED") × (is_stale r.commit_id head ≡ false)
judge_ok expected head r h =
    let (st, stale) = flags (state_of r) (is_stale r.commit_id head) h in (st, stale)
  where
    flags :
        (st : String) (stale : Bool)
        → (if str_eq st "CHANGES_REQUESTED" || str_eq st "DISMISSED"
            then supersede (not_approved expected r.state)
            else if not (str_eq st "APPROVED")
            then refused (not_approved expected r.state)
            else if stale
            then supersede (stale_approval (get_or "" r.commit_id) head)
            else approved approved_on_head).ok
          ≡ true
        → (st ≡ "APPROVED") × (stale ≡ false)
    flags st stale k = ground (arith, eq_iff st "APPROVED")

-- An approval passes only where the expected approver has given a verdict, the last of these
-- approves, and it names the live head or no commit. The live head is the pull request's, or the
-- delivery's where the answer has none.
pub check_approver_on_head_ok :
    (reviews : List Review) (pr : Pull) (expected head_sha : String)
    → (check_approver_on_head (some reviews) pr expected head_sha).ok ≡ true
    → (r : Review) × IsLatest (lower expected) reviews r
      × (state_of r ≡ "APPROVED")
      × IsOnHead (get_or head_sha pr.head_sha) r.commit_id
unfolding check_approver_on_head
check_approver_on_head_ok reviews pr expected head_sha h =
    elim (latest_verdict_cases (lower expected) none reviews) [
      | inl (nothing, quiet) ↦ cc (rw nothing at h)
      | inr (r, found, l) ↦
          let (st, fresh) = judge_ok expected (get_or head_sha pr.head_sha) r (rw found at h) in
          (r, l, st, on_head (get_or head_sha pr.head_sha) r.commit_id fresh)
    ]

-- Of the three answers of an approval check at most one holds: passed, retry later, superseded.
abbrev pub IsOneOf : ApprovalCheck → Type 0
IsOneOf c =
    ((c.ok && c.transient) ≡ false)
    × ((c.ok && c.superseded) ≡ false)
    × ((c.transient && c.superseded) ≡ false)

pub check_approver_on_head-IsOneOf :
    (reviews : Option (List Review)) (pr : Pull) (expected head_sha : String)
    → IsOneOf (check_approver_on_head reviews pr expected head_sha)
      × ((check_approver_on_head reviews pr expected head_sha).transient ≡ false)
unfolding check_approver_on_head
check_approver_on_head-IsOneOf reviews pr expected head_sha =
    of_judge expected (get_or head_sha pr.head_sha)
      (latest_verdict (lower expected) none (get_or [] reviews))
  where
    of_judge :
        (expected head : String) (latest : Option Review)
        → IsOneOf (judge expected head latest) × ((judge expected head latest).transient ≡ false)
    of_judge expected head none = ((refl, refl, refl), refl)
    of_judge expected head (some r) = ground arith
