-- ===== src/SessionLoop/Process/StepGates.antt =====
-- The gates that `_process_one` puts between a transition and a turn.
use code_workflow.Prelude.{
  ℕ, ◌≤◌, String, ◌≡◌, refl, ◌∙◌, Bool, true, false, not, ◌&&◌, Bool-cases, inl, inr, arith, Option,
  none, some,
}
use code_workflow.Prelude.Int.{ℤ}
use code_workflow.Fsm.{is_terminal}
use code_workflow.Store.Rows.{Store}
use code_workflow.SessionLoop.{close_reconcile_held}
use code_workflow.SessionLoop.StallSignals.{Sources, Observed, stalled, goes_on}
use code_workflow.SessionLoop.Process.{
  Incoming, World, next, ◌▷◌, Outside, TurnRequest, stored, escalate_done, escalate_system, LivePr,
}
use code_workflow.SessionLoop.Process.Outcomes.{
  handed, ended, failed, Next, ▷-Post, Post-weaken, if-Post, stored-Post, then-Next,
}
use code_workflow.SessionLoop.Process.Resolve.{pr_number_from_payload}
use code_workflow.SessionLoop.Process.Heads.{
  Headed, pr_is_spent, fetch_live_pr, is_cached, spent_by, or_fetch, is_merged,
}
use code_workflow.SessionLoop.Process.Step.{
  next_state, take_step, check_terminal, check_spent, check_spent_pr, spent_or, stamp_head,
  check_hold, check_role, check_stall, observed, observed_with, stall_of, check_drop, turn_of,
  role_key, step_delivery, is_drop, is_merge_kind, is_observed_kind, incoming_of,
}

abbrev Holds : Type 1
Holds = Headed → (String → ℕ) → Type 0

-- The property of what is handed on, and a further fact of it.
abbrev Adds : Holds → Holds → Headed → World → Type 0
Adds I Q h w = I h w.role_busy_until × Q h w.role_busy_until

abbrev Keeps : Holds → Headed → World → Type 0
Keeps I h w = I h w.role_busy_until

module _ (o : Outside) where
  pub escalate_done-Next :
      {A : Type 0} {P : A → World → Type 0} (key reason : String) (e : Incoming) (w : World)
      → Next P (escalate_done o key reason e w)
  escalate_done-Next key reason e w = then-Next (escalate_system o key reason w) _ (λ u v. ended tt)

  -- A write to the store, after which the value is handed on.
  stored_on :
      {A : Type 0} (I : A → (String → ℕ) → Type 0) (a : A) (w : World) (m : Option Store)
      → I a w.role_busy_until
      → Next (λ b v. I b v.role_busy_until) (stored w m ▷ λ u v. next a v)
  stored_on I a w m i =
      ▷-Post {P = λ u v. I a v.role_busy_until} (stored w m) _
        (stored-Post w m (λ n. tt) (λ s n. i)) (λ u v x. handed x)

  fetch_live_pr_busy :
      (repo : String) (n : ℤ) (w : World)
      → (fetch_live_pr o repo n w).1.role_busy_until ≡ w.role_busy_until
  unfolding fetch_live_pr
  fetch_live_pr_busy repo n w = elim (Bool-cases (is_cached repo n w)) [
    | inl e ↦ rw e refl
    | inr e ↦ elim (Bool-cases (is_merged (o.fetch_pr repo n))) [
      | inl m ↦ rw (e, m) refl
      | inr m ↦ rw (e, m) refl
    ]
  ]

  or_fetch_busy :
      (repo : String) (n : ℤ) (live : Option LivePr) (w : World)
      → (or_fetch o repo n w live).1.role_busy_until ≡ w.role_busy_until
  or_fetch_busy repo n none w = fetch_live_pr_busy repo n w
  or_fetch_busy repo n (some pr) w = refl

  spent_by_busy :
      (repo : String) (n : ℤ) (live : Option LivePr) (w : World)
      → (spent_by o repo n (live, w)).1.role_busy_until ≡ w.role_busy_until
  spent_by_busy repo n none w = refl
  spent_by_busy repo n (some pr) w = elim (Bool-cases pr.merged) [
    | inl e ↦ rw e refl
    | inr e ↦ rw e refl
  ]

  pr_is_spent_busy :
      (repo : String) (n : ℤ) (live : Option LivePr) (w : World)
      → (pr_is_spent o repo n live w).1.role_busy_until ≡ w.role_busy_until
  unfolding pr_is_spent
  pr_is_spent_busy repo n live w = elim (Bool-cases (is_cached repo n w)) [
    | inl e ↦ rw e refl
    | inr e ↦ rw e (
        spent_by_busy repo n (or_fetch o repo n w live).0 (or_fetch o repo n w live).1
        ∙ or_fetch_busy repo n live w)
  ]

  module _ (I : Holds) (h : Headed) (w : World) (i : I h w.role_busy_until) where
    take_step-Next : Next (Keeps I) (take_step o h w)
    take_step-Next = stored_on I h w _ i

    check_terminal-Next :
        Next (Adds I (λ g b. is_terminal (next_state g) ≡ false)) (check_terminal o h w)
    check_terminal-Next = if-Post (λ e. ended tt) (λ e. handed (i, e))

    spent_or-Next :
        (spent : Bool) (v : World)
        → v.role_busy_until ≡ w.role_busy_until
        → Next (Keeps I) (spent_or o h (spent, v))
    spent_or-Next true v e = ended tt
    spent_or-Next false v e = handed (rw e i)

    check_spent_pr-Next : (n : Option ℤ) → Next (Keeps I) (check_spent_pr o h w n)
    check_spent_pr-Next none = handed i
    check_spent_pr-Next (some n) = spent_or-Next _ _ (pr_is_spent_busy _ n h.live_pr w)

    check_spent-Next : Next (Keeps I) (check_spent o h w)
    check_spent-Next =
        let t = h.routed.classified.taken in
        if-Post {t = is_merge_kind h.routed.classified.kind} {x = next h w}
          {y = check_spent_pr o h w (pr_number_from_payload t.incoming t.issue_num)} (λ e. handed i)
          (λ e. check_spent_pr-Next (pr_number_from_payload t.incoming t.issue_num))

    stamp_head-Next : Next (Keeps I) (stamp_head o h w)
    stamp_head-Next = stored_on I h w _ i

    check_hold-Next :
        Next
          (Adds I
            (λ g b. close_reconcile_held (next_state g) g.routed.classified.taken.sess ≡ false))
          (check_hold o h w)
    check_hold-Next = if-Post (λ e. ended tt) (λ e. handed (i, e))

    check_role-Next : Next (Adds I (λ g b. b (role_key g) ≤ o.now)) (check_role o h w)
    check_role-Next = if-Post (λ e. ended tt) (λ e. handed (i, ground (arith, e)))

    observed-Next : (x : Observed) → Next (Keeps I) (observed o h w x)
    observed-Next (stalled signal) = escalate_done-Next _ _ (incoming_of h) w
    observed-Next (goes_on fields) = stored_on I h w _ i

    observed_with-Next : (x : Option Sources) → Next (Keeps I) (observed_with o h w x)
    observed_with-Next none = failed tt
    observed_with-Next (some sources) = observed-Next (stall_of o h sources)

    check_stall-Next : Next (Keeps I) (check_stall o h w)
    check_stall-Next =
        let c = h.routed.classified in
        if-Post {t = not (is_drop h.routed.decision.action) && is_observed_kind c.kind}
          {x = observed_with o h w (o.stall_sources c.taken.sess c.taken.incoming)} {y = next h w}
          (λ e. observed_with-Next (o.stall_sources c.taken.sess c.taken.incoming)) (λ e. handed i)

    check_drop-Next :
        Next
          (λ t v.
            (t ≡ turn_of h) × (I h v.role_busy_until × (is_drop h.routed.decision.action ≡ false)))
          (check_drop o h w)
    check_drop-Next = if-Post (λ e. ended tt) (λ e. handed (refl, (i, e)))

-- What holds of a delivery once the transition's gates have let it through.
abbrev pub Passed : Outside → Headed → (String → ℕ) → Type 0
Passed o h busy =
    (is_terminal (next_state h) ≡ false)
    × ((close_reconcile_held (next_state h) h.routed.classified.taken.sess ≡ false)
        × ((busy (role_key h) ≤ o.now) × (is_drop h.routed.decision.action ≡ false)))

abbrev At : Headed → Holds
At h g busy = g ≡ h

-- with the gates passed so far
abbrev AtOpen : Headed → Holds
AtOpen h g busy = At h g busy × (is_terminal (next_state g) ≡ false)

abbrev AtUnheld : Headed → Holds
AtUnheld h g busy =
    AtOpen h g busy × (close_reconcile_held (next_state g) g.routed.classified.taken.sess ≡ false)

abbrev AtFree : Outside → Headed → Holds
AtFree o h g busy = AtUnheld h g busy × (busy (role_key g) ≤ o.now)

at-Passed :
    (o : Outside) (h g : Headed) (busy : String → ℕ) (t : TurnRequest)
    → (t ≡ turn_of g) × (AtFree o h g busy × (is_drop g.routed.decision.action ≡ false))
    → (t ≡ turn_of h) × Passed o h busy
at-Passed o h g busy t (e, ((((at, live), unheld), free), kept)) =
    rw (← at) (e, (live, (unheld, (free, kept))))

pub step_delivery-Passed :
    (o : Outside) (h : Headed) (w : World)
    → Next (λ t v. (t ≡ turn_of h) × Passed o h v.role_busy_until) (step_delivery o h w)
unfolding step_delivery
step_delivery-Passed o h w =
    let taken = take_step-Next o (At h) h w refl in
    let live = ▷-Post (take_step o h w) (check_terminal o) taken (check_terminal-Next o (At h)) in
    let spent = ▷-Post _ (check_spent o) live (check_spent-Next o (AtOpen h)) in
    let stamped = ▷-Post _ (stamp_head o) spent (stamp_head-Next o (AtOpen h)) in
    let unheld = ▷-Post _ (check_hold o) stamped (check_hold-Next o (AtOpen h)) in
    let free = ▷-Post _ (check_role o) unheld (check_role-Next o (AtUnheld h)) in
    let seen = ▷-Post _ (check_stall o) free (check_stall-Next o (AtFree o h)) in
    ▷-Post _ (check_drop o) seen (λ g v i.
      Post-weaken (check_drop-Next o (AtFree o h) g v i)
        (λ t u p. at-Passed o h g u.role_busy_until t p))
