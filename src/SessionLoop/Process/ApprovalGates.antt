-- ===== src/SessionLoop/Process/ApprovalGates.antt =====
-- What the approvals and the merges of `_process_one` hand on.
use code_workflow.Prelude.{
  ℕ, String, ◌≡◌, refl, ap, ◌∙◌, true, Bool-cases, inl, inr, ◌⊎◌, Option, none, some,
}
use code_workflow.Fsm.{EventKind, merge_authorized}
use code_workflow.SessionLoop.Process.{Incoming, World, ◌▷◌, Outside}
use code_workflow.SessionLoop.Process.Outcomes.{
  handed, ended, Next, ▷-Post, Post-weaken, either-Post,
}
use code_workflow.SessionLoop.Process.Admit.{admit, taken}
use code_workflow.SessionLoop.Process.Events.{Classified, classify}
use code_workflow.SessionLoop.Process.StepGates.{escalate_done-Next}
use code_workflow.SessionLoop.Process.Whole.{verified_delivery}
use code_workflow.Verify.{ApprovalCheck}
use code_workflow.SessionLoop.Process.Approvals.{
  check_design, check_feature, judge_design, judge_merge_auth, approve_design, approve_feature,
  is_design_unverified, is_feature_unverified, defuse_feature_pr_closing_keywords, defused, patched,
  with_kind,
}
use code_workflow.SessionLoop.Process.Merges.{
  check_merge, merge_in_state, is_tracked, is_awaiting, is_merging, is_design_merge,
  is_feature_merge, branch_removed,
}
use code_workflow.SessionLoop.Process.EntryGates.{Entered, entry-Entered}

module _ (o : Outside) where
  judge_design-Next :
      (c : Classified) (w : World) (check : ApprovalCheck)
      → Next
          (λ d v. (d ≡ with_kind EventKind.design_approved c) × (check.ok ≡ true))
          (judge_design o c w check)
  judge_design-Next c w check = elim (Bool-cases check.ok) [
    | inl e ↦ rw e (handed (refl, refl))
    | inr e ↦
        rw e (either-Post check.superseded (ended tt) (escalate_done-Next o _ _ c.taken.incoming w))
  ]

  patched-Next :
      (c : Classified) (pr : ℕ) (w : World) (body : Option String)
      → Next (λ d v. d ≡ c) (patched o c pr w body)
  patched-Next c pr w none = handed refl
  patched-Next c pr w (some body) =
      either-Post (o.patch_issue_body c.taken.incoming.repo pr body) (handed refl)
        (escalate_done-Next o _ _ c.taken.incoming w)

  defused-Next :
      (c : Classified) (pr : ℕ) (w : World) (body : Option String)
      → Next (λ d v. d ≡ c) (defused o c pr w body)
  defused-Next c pr w none = escalate_done-Next o _ _ c.taken.incoming w
  defused-Next c pr w (some body) = patched-Next c pr w _

  defuse_feature_pr_closing_keywords-Next :
      (c : Classified) (pr : ℕ) (w : World)
      → Next (λ d v. d ≡ c) (defuse_feature_pr_closing_keywords o c pr w)
  unfolding defuse_feature_pr_closing_keywords
  defuse_feature_pr_closing_keywords-Next c pr w = defused-Next c pr w _

  judge_merge_auth-Next :
      (c : Classified) (w : World) (check : ApprovalCheck)
      → Next
          (λ d v. (d ≡ with_kind merge_authorized c) × (check.ok ≡ true))
          (judge_merge_auth o c w check)
  judge_merge_auth-Next c w check = elim (Bool-cases check.ok) [
    | inl e ↦ rw e (
        ▷-Post (defuse_feature_pr_closing_keywords o c _ _) _
          (defuse_feature_pr_closing_keywords-Next c _ _)
          (λ d v s. handed (ap (with_kind merge_authorized) s, refl)))
    | inr e ↦ rw e (
        either-Post check.superseded (ended tt) (
          either-Post check.transient
            (either-Post _ (ended tt) (escalate_done-Next o _ _ c.taken.incoming _))
            (escalate_done-Next o _ _ c.taken.incoming _)))
  ]

  -- The session is the one that was read, and the kind is the event's, or one that was verified.
  abbrev pub Verified : Classified → Classified → Type 0
  Verified c d =
      (d.taken ≡ c.taken)
      × ((d.kind ≡ c.kind)
          ⊎ (((d.kind ≡ EventKind.design_approved) × ((check_design o c.taken).ok ≡ true))
              ⊎ ((d.kind ≡ merge_authorized) × ((check_feature o c.taken).ok ≡ true))))

  approve_design-Verified :
      (c : Classified) (w : World) → Next (λ d v. Verified c d) (approve_design o c w)
  unfolding approve_design
  approve_design-Verified c w =
      either-Post (is_design_unverified c.kind)
        (Post-weaken (judge_design-Next c w (check_design o c.taken))
          (λ d v s. (ap (λ x. x.taken) s.0, inr (inl (ap (λ x. x.kind) s.0, s.1)))))
        (handed (refl, inl refl))

  approve_feature-Verified :
      (c : Classified) (w : World) → Next (λ d v. Verified c d) (approve_feature o c w)
  unfolding approve_feature
  approve_feature-Verified c w =
      either-Post (is_feature_unverified c.kind)
        (Post-weaken (judge_merge_auth-Next c w (check_feature o c.taken))
          (λ d v s. (ap (λ x. x.taken) s.0, inr (inr (ap (λ x. x.kind) s.0, s.1)))))
        (handed (refl, inl refl))

  Verified-then : (c d e : Classified) → Verified c d → Verified d e → Verified c e
  Verified-then c d e (taken, how) (taken', inr (inl (kind, ok))) =
      (taken' ∙ taken, inr (inl (kind, rw (← taken) ok)))
  Verified-then c d e (taken, how) (taken', inr (inr (kind, ok))) =
      (taken' ∙ taken, inr (inr (kind, rw (← taken) ok)))
  Verified-then c d e (taken, how) (taken', inl same) = (taken' ∙ taken, rw same how)

  -- What the state machine is shown: the delivery as it entered, with a kind that was verified.
  abbrev pub Shown : Incoming → Classified → Type 0
  Shown e d = (c : Classified) × (Entered o e c × Verified c d)

  pub verified_delivery-Shown :
      (e : Incoming) (w : World) → Next (λ d v. Shown e d) (verified_delivery o e w)
  unfolding verified_delivery
  verified_delivery-Shown e w =
      ▷-Post {P = λ d v. Shown e d} (admit o e w ▷ classify o ▷ approve_design o)
        (approve_feature o)
        (▷-Post (admit o e w ▷ classify o) (approve_design o) (entry-Entered o e w)
          (λ c v s. Post-weaken (approve_design-Verified c v) (λ d x p. (c, (s, p)))))
        (λ d v (c, (s, p)).
          Post-weaken (approve_feature-Verified d v) (λ f x p'. (c, (s, Verified-then c d f p p'))))

  merge_in_state-Next : (c : Classified) (w : World) → Next (λ d v. d ≡ c) (merge_in_state o c w)
  merge_in_state-Next c w =
      either-Post (is_awaiting c.state) (ended tt) (
        either-Post (is_merging c.state) (handed refl)
          (escalate_done-Next o _ _ c.taken.incoming w))

  pub check_merge-Next : (c : Classified) (w : World) → Next (λ d v. d ≡ c) (check_merge o c w)
  unfolding check_merge
  check_merge-Next c w =
      either-Post (is_design_merge c.kind)
        (either-Post (is_tracked c.taken.sess.design_pr c.taken.incoming.pull_number) (handed refl)
          (ended tt))
        (either-Post (is_feature_merge c.kind)
          (either-Post (is_tracked c.taken.sess.feature_pr c.taken.incoming.pull_number)
            (merge_in_state-Next c (branch_removed o c w)) (ended tt))
          (handed refl))
