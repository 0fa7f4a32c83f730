-- ===== src/SessionLoop/Process/EntryGates.antt =====
-- What the parts of `_process_one` before the approvals hand on.
use code_workflow.Prelude.{ℕ, ◌≡◌, refl, ◌∙◌, false, not, ◌&&◌, Option, none, some, str_eq}
use code_workflow.Store.Rows.{Session}
use code_workflow.SessionLoop.{close_reconcile_held}
use code_workflow.SessionLoop.Process.{
  Incoming, World, ◌▷◌, Outside, Ensured, ensured, capacity_refused, ensure_failed,
  structural_refused,
}
use code_workflow.SessionLoop.Process.Resolve.{row_of, Resolved, resolve_session_for_delivery}
use code_workflow.Store.Sessions.{get_session}
use code_workflow.Intake.{may_create_session}
use code_workflow.LoopSafety.{Breach}
use code_workflow.SessionLoop.Process.Outcomes.{
  handed, ended, Next, ▷-Post, Post-weaken, if-Post, either-Post, then-Next, handled-Next,
}
use code_workflow.SessionLoop.Process.Admit.{
  Taken, admit, admit_issue, find_session, after_ensure, take_up, start,
}
use code_workflow.SessionLoop.Process.Events.{
  Classified, classify, skip_parts, issue_events, check_budget, is_review_part, from_author,
  is_verdict_event, is_issue_action, unmark, is_paused, breached, breach_text, classified,
}
use code_workflow.SessionLoop.Process.StepGates.{escalate_done-Next}

module _ (o : Outside) where
  take_up-Next :
      (e : Incoming) (r : Resolved) (x : Option Session) (w : World)
      → Next (λ t v. t.incoming ≡ e) (take_up o e r x w)
  take_up-Next e r none w = ended tt
  take_up-Next e r (some x) w = handed refl

  after_ensure-Next :
      (e : Incoming) (r : Resolved) (x : Ensured)
      → Next (λ t v. t.incoming ≡ e) (after_ensure o e r x)
  after_ensure-Next e r (ensured w) =
      then-Next (start o r (row_of (get_session r.session_key w.store)) w) _
        (λ u v. take_up-Next e r (row_of (get_session r.session_key v.store)) v)
  after_ensure-Next e r (capacity_refused w) = ended tt
  after_ensure-Next e r (ensure_failed w) = ended tt
  after_ensure-Next e r (structural_refused reason w) =
      handled-Next (o.structural_refusal r.session_key e reason w)

  find_session-Next :
      (e : Incoming) (r : Resolved) (w : World) (x : Option Session)
      → Next (λ t v. t.incoming ≡ e) (find_session o e r w x)
  find_session-Next e r w (some x) = handed refl
  find_session-Next e r w none =
      either-Post (not (may_create_session e.event e.action e.payload o.intake)) (ended tt)
        (either-Post (not o.has_supervisor) (ended tt) (after_ensure-Next e r _))

  admit_issue-Next :
      (e : Incoming) (w : World) (n : Option ℕ) → Next (λ t v. t.incoming ≡ e) (admit_issue o e w n)
  admit_issue-Next e w none = ended tt
  admit_issue-Next e w (some n) =
      find_session-Next e (resolve_session_for_delivery e n w.store) w
        (resolve_session_for_delivery e n w.store).session

  admit-Next : (e : Incoming) (w : World) → Next (λ t v. t.incoming ≡ e) (admit o e w)
  unfolding admit
  admit-Next e w = either-Post (str_eq e.repo "") (ended tt) (admit_issue-Next e w e.issue_num)

  skip_parts-Next :
      (t : Taken) (w : World)
      → Next
          (λ u v. (u.incoming ≡ t.incoming) × (is_review_part u.incoming.event ≡ false))
          (skip_parts o.owner t w)
  skip_parts-Next t w =
      if-Post (λ e. ended tt)
        (λ e.
          either-Post (from_author o.owner t.incoming && not (is_verdict_event t.incoming))
            (ended tt) (handed (refl, e)))

  issue_events-Next :
      (t : Taken) (w : World) → Next (λ u v. u.incoming ≡ t.incoming) (issue_events o t w)
  issue_events-Next t w = either-Post (is_issue_action "closed" t) (handled-Next _) (
      either-Post (is_issue_action "edited" t) (handled-Next _) (
        either-Post (is_issue_action "reopened" t)
          (then-Next _ _ (λ u v.
            either-Post (close_reconcile_held t.sess.state (unmark t.sess))
              (then-Next _ _ (λ x y. ended tt)) (handed refl)))
          (handed refl)))

  breached-Next :
      (t : Taken) (w : World) (b : Option Breach)
      → Next (λ c v. c ≡ classified o.owner t) (breached o t w b)
  breached-Next t w none = handed refl
  breached-Next t w (some b) = escalate_done-Next o t.session_key (breach_text b) t.incoming w

  check_budget-Next :
      (t : Taken) (w : World) → Next (λ c v. c ≡ classified o.owner t) (check_budget o t w)
  check_budget-Next t w = either-Post (is_paused t.sess) (handed refl) (breached-Next t w _)

  -- A classified delivery: no part of a review, with the kind of its event.
  abbrev pub Entered : Incoming → Classified → Type 0
  Entered e c =
      (c.taken.incoming ≡ e) × ((is_review_part e.event ≡ false) × (c ≡ classified o.owner c.taken))

  entered :
      (t u : Taken) (c : Classified)
      → (u.incoming ≡ t.incoming) × (is_review_part t.incoming.event ≡ false)
      → c ≡ classified o.owner u
      → Entered t.incoming c
  entered t u c s e = rw e (s.0, (s.1, refl))

  classify-Entered : (t : Taken) (w : World) → Next (λ c v. Entered t.incoming c) (classify o t w)
  unfolding classify
  classify-Entered t w =
      ▷-Post (skip_parts o.owner t w ▷ issue_events o) _
        (▷-Post (skip_parts o.owner t w) _ (skip_parts-Next t w)
          (λ u v s. Post-weaken (issue_events-Next u v) (λ x y e. (e ∙ s.0, rw (← s.0) s.1))))
        (λ u v s. Post-weaken (check_budget-Next u v) (λ c y e. entered t u c s e))

  pub entry-Entered :
      (e : Incoming) (w : World) → Next (λ c v. Entered e c) (admit o e w ▷ classify o)
  entry-Entered e w =
      ▷-Post (admit o e w) (classify o) (admit-Next e w)
        (λ t v s. Post-weaken (classify-Entered t v) (λ c x p. rw (← s) p))
