-- ===== src/Verify/Checks.antt =====
-- The classes of required checks in verify.py.
use code_workflow.Prelude.{
  ◌≡◌, ◌↔◌, refl, String, Option, none, some, List, [], ◌∷◌, true, false, ◌&&◌, ◌||◌, arith, eq_iff,
  any, All,
}
use code_workflow.Verify.{CheckRun, CommitStatus}
use code_workflow.Verify.CheckClasses.{
  CheckState, success, classify, is_failed, is_settling, by_name, classify_required_checks,
}

-- A name succeeds if what was last reported under it is exactly `success`.
abbrev pub Succeeds : List CheckRun → List CommitStatus → String → Type 0
Succeeds runs statuses name = by_name runs statuses name ≡ some "success"

classify-success : (o : Option String) → (classify o ≡ success) ↔ (o ≡ some "success")
classify-success none = (λ h. cc h, λ h. cc h)
classify-success (some st) =
    (λ h. ground (arith, eq_iff st "success"), λ h. ground (arith, eq_iff st "success"))

-- Neither failed nor settling is success, of every name.
All-clear :
    (state : String → CheckState) (ns : List String)
    → ((any (λ n. is_failed (state n)) ns ≡ false) × (any (λ n. is_settling (state n)) ns ≡ false))
      ↔ All (λ n. state n ≡ success) ns
All-clear state [] = (λ h. tt, λ h. (refl, refl))
All-clear state (n ∷ ns) = (
  λ h. (ground arith, (All-clear state ns).0 (ground arith)),
  λ h. ground (arith, (All-clear state ns).1 h.1),
)

All-map {ℓ} :
    {A : Type ℓ} (P Q : A → Type 0) → ((a : A) → P a → Q a) → (xs : List A) → All P xs → All Q xs
All-map P Q f [] h = tt
All-map P Q f (x ∷ xs) h = (f x h.0, All-map P Q f xs h.1)

-- Exactly one of the three classes holds of any checks, and it is success exactly if every required
-- name was last reported as `success`: a name that was never reported does not pass.
pub classify_required_checks_lem :
    (runs : List CheckRun) (statuses : List CommitStatus) (required : List String)
    → let c = classify_required_checks runs statuses required in
      ((c.all_success ≡ true) ↔ All (Succeeds runs statuses) required)
      × ((c.all_success && c.pending) ≡ false)
      × ((c.all_success && c.permanent_fail) ≡ false)
      × ((c.pending && c.permanent_fail) ≡ false)
      × ((c.all_success || c.pending || c.permanent_fail) ≡ true)
unfolding classify_required_checks
classify_required_checks_lem runs statuses required =
    let state = λ (n : String). classify (by_name runs statuses n) in
    let clear = All-clear state required in
    let into =
      All-map (λ n. state n ≡ success) (Succeeds runs statuses)
        (λ n. (classify-success (by_name runs statuses n)).0) required in
    let back =
      All-map (Succeeds runs statuses) (λ n. state n ≡ success)
        (λ n. (classify-success (by_name runs statuses n)).1) required in
    (
      (λ h. into (clear.0 (ground arith)), λ h. ground (arith, clear.1 (back h))),
      ground arith,
      ground arith,
      ground arith,
      ground arith,
    )
