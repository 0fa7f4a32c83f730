-- ===== src/SessionLoop/Process/Gates.antt =====
-- What has been verified of a delivery that the state machine sees, and what a turn has passed.
use code_workflow.Prelude.{ℕ, String, ◌≡◌, refl, sym, ap, ◌∙◌, true, false, none, inl, inr, lower}
use code_workflow.Fsm.{EventKind, merge_authorized}
use code_workflow.Routing.{RouteAction, drop, route, defer, route_for_recipient}
use code_workflow.Routing.Rules.{paused_route}
use code_workflow.SessionLoop.Privileges.{is_privileged, event_kind-unprivileged}
use code_workflow.SessionLoop.Process.{Incoming, World, next, ◌▷◌, Outside, TurnRequest}
use code_workflow.SessionLoop.Process.Outcomes.{Next, itself-Next, ▷-Post, Post-weaken, at_next}
use code_workflow.SessionLoop.Process.Events.{Classified, is_review_part}
use code_workflow.SessionLoop.Process.Approvals.{check_design, check_feature}
use code_workflow.SessionLoop.Process.Merges.{check_merge}
use code_workflow.SessionLoop.Process.Route.{
  Routed, routed, route_delivery, request_of, recipient_of,
}
use code_workflow.SessionLoop.Process.Heads.{Headed, headed, check_heads}
use code_workflow.SessionLoop.Process.Step.{next_state, turn_of, step_delivery, is_drop}
use code_workflow.SessionLoop.Process.EntryGates.{Entered}
use code_workflow.SessionLoop.Process.ApprovalGates.{
  Shown, verified_delivery-Shown, check_merge-Next,
}
use code_workflow.SessionLoop.Process.RouteGates.{is_defer, route_delivery-Next, check_heads-Next}
use code_workflow.SessionLoop.Process.StepGates.{Passed, step_delivery-Passed}
use code_workflow.SessionLoop.Process.Whole.{verified_delivery, decide_turn}

module _ (o : Outside) where
  kind_unprivileged : (e : Incoming) (c : Classified) → Entered o e c → is_privileged c.kind ≡ false
  kind_unprivileged e c (same, (part, from)) =
      let i = c.taken.incoming in
      ap (λ x. is_privileged x.kind) from
      ∙ event_kind-unprivileged i.event i.action i.parts i.sender o.owner

  Shown-verified :
      (e : Incoming) (d : Classified)
      → Shown o e d
      → (d.taken.incoming ≡ e)
        × ((d.kind ≡ merge_authorized → (check_feature o d.taken).ok ≡ true)
            × (d.kind ≡ EventKind.design_approved → (check_design o d.taken).ok ≡ true))
  Shown-verified e d (c, (entered, (taken, inl same))) =
      let plain : is_privileged d.kind ≡ false =
        ap is_privileged same ∙ kind_unprivileged e c entered in
      (
        ap (λ t. t.incoming) taken ∙ entered.0,
        ((λ k. absurd (cc (k, plain))), (λ k. absurd (cc (k, plain)))),
      )
  Shown-verified e d (c, (entered, (taken, inr (inl (kind, ok))))) =
      (ap (λ t. t.incoming) taken ∙ entered.0, ((λ k. absurd (cc (k, kind))), (λ k. rw taken ok)))
  Shown-verified e d (c, (entered, (taken, inr (inr (kind, ok))))) =
      (ap (λ t. t.incoming) taken ∙ entered.0, ((λ k. rw taken ok), (λ k. absurd (cc (k, kind)))))

-- A delivery that the checks before the state machine hand on is the one that was taken up; its kind
-- is `merge_authorized` only if `verify_feature_merge` has said ok of it, and `design_approved` only if
-- `verify_design_approval` has.
pub verified_delivery_ok :
    (o : Outside) (e : Incoming) (w w' : World) (d : Classified)
    → verified_delivery o e w ≡ next d w'
    → (d.taken.incoming ≡ e)
      × ((d.kind ≡ merge_authorized → (check_feature o d.taken).ok ≡ true)
          × (d.kind ≡ EventKind.design_approved → (check_design o d.taken).ok ≡ true))
verified_delivery_ok o e w w' d h =
    Shown-verified o e d (at_next (verified_delivery o e w) d w' (verified_delivery-Shown o e w) h)

kept_route : (a : RouteAction) → is_defer a ≡ false → is_drop a ≡ false → a ≡ route
kept_route drop k d = absurd (cc d)
kept_route route k d = refl
kept_route defer k d = absurd (cc k)

-- What the steps before the state machine make of the delivery.
abbrev pub IsShown : Outside → Incoming → World → Classified → World → Type 0
IsShown o e w c v = verified_delivery o e w ≡ next c v

-- A classified delivery with its routing.
abbrev pub routing : Outside → Classified → Headed
routing o c = headed (routed o c) none

module _ (o : Outside) (e : Incoming) (w : World) where
  -- A delivery that was routed, and not put off.
  abbrev RoutedFrom : Routed → Type 0
  RoutedFrom r =
      (c : Classified) × ((v : World) × ((IsShown o e w c v × Shown o e c)
          × ((r ≡ routed o c) × (is_defer (routed o c).decision.action ≡ false))))

  pub decide_turn_stages : decide_turn o e w ≡ (
      verified_delivery o e w ▷ check_merge o ▷ route_delivery o ▷ check_heads o ▷ step_delivery o)
  unfolding decide_turn
  decide_turn_stages = refl

  stages-RoutedFrom :
      Next
        (λ t v.
          (h : Headed) × ((t ≡ turn_of h) × (RoutedFrom h.routed × Passed o h v.role_busy_until)))
        (verified_delivery o e w
          ▷ check_merge o
          ▷ route_delivery o
          ▷ check_heads o
          ▷ step_delivery o)
  stages-RoutedFrom =
      let merged =
        ▷-Post {Q = λ c x. (v : World) × (IsShown o e w c v × Shown o e c)}
          (verified_delivery o e w) (check_merge o)
          (itself-Next (verified_delivery o e w) (verified_delivery-Shown o e w))
          (λ d v s. Post-weaken (check_merge-Next o d v) (λ c x p. rw p (v, s))) in
      let routed' =
        ▷-Post {Q = λ r x. RoutedFrom r} _ (route_delivery o) merged
          (λ c v s. Post-weaken (route_delivery-Next o c v) (λ r x p. (c, (s.0, (s.1, p))))) in
      let looked =
        ▷-Post {Q = λ h x. RoutedFrom h.routed} _ (check_heads o) routed'
          (λ r v s. Post-weaken (check_heads-Next o r v) (λ h x p. rw p s)) in
      ▷-Post _ (step_delivery o) looked
        (λ h v s. Post-weaken (step_delivery-Passed o h v) (λ t x p. (h, (p.0, (s, p.1)))))

-- The gates read the routing only.
routing-Passed :
    (o : Outside) (h : Headed) (r : Routed) (t : TurnRequest) (busy : String → ℕ)
    → h.routed ≡ r
    → t ≡ turn_of h
    → Passed o h busy
    → (t ≡ turn_of (headed r none)) × Passed o (headed r none) busy
unfolding next_state
routing-Passed o h r t busy same turn passed = rw (← same) (turn, passed)

-- A delivery that calls for a turn is handed on by the checks before the state machine, as the one that
-- was taken up, and is no part of a review. The turn is that of its routing, which is to route; the
-- session's state after its transition is not terminal, no close-reconcile hold is on it, and the hold
-- of the turn's role is over.
pub decide_turn_gates :
    (o : Outside) (e : Incoming) (w w' : World) (t : TurnRequest)
    → decide_turn o e w ≡ next t w'
    → (c : Classified) × ((v : World) × (IsShown o e w c v
          × ((c.taken.incoming ≡ e)
              × ((is_review_part e.event ≡ false)
                  × (((route_for_recipient (request_of o c (recipient_of o c))).action ≡ route)
                      × ((t ≡ turn_of (routing o c))
                          × Passed o (routing o c) w'.role_busy_until))))))
decide_turn_gates o e w w' t eq =
    let (h, (turn, (from, passed))) =
      at_next _ t w' (stages-RoutedFrom o e w) (sym (decide_turn_stages o e w) ∙ eq) in
    let (c, (v, ((shown, (d, (entered, how))), (same, kept)))) = from in
    let (turn', passed') = routing-Passed o h (routed o c) t w'.role_busy_until same turn passed in
    (
      c,
      (
        v,
        (
          shown,
          (
            (Shown-verified o e c (d, (entered, how))).0,
            (
              entered.1.0,
              (kept_route (routed o c).decision.action kept passed'.1.1.1, (turn', passed')),
            ),
          ),
        ),
      ),
    )

-- If the session was paused when the delivery was classified, a turn is only for what the owner sent.
pub paused_turn :
    (o : Outside) (e : Incoming) (w w' v : World) (t : TurnRequest) (c : Classified)
    → decide_turn o e w ≡ next t w'
    → verified_delivery o e w ≡ next c v
    → c.paused ≡ true
    → lower e.sender ≡ lower o.owner
paused_turn o e w w' v t c eq shown paused =
    let (d, (u, (shown', (same, (part, (action, passed)))))) = decide_turn_gates o e w w' t eq in
    let one : d ≡ c = cc (shown, shown') in
    ap (λ i. lower i.sender) (sym same)
    ∙ paused_route (request_of o d (recipient_of o d)) (ap (λ x. x.paused) one ∙ paused) action
