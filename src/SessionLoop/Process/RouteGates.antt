-- ===== src/SessionLoop/Process/RouteGates.antt =====
-- What the routing of a delivery and the look at its heads hand on.
use code_workflow.Prelude.{String, ◌≡◌, refl, Bool, true, false, ◌&&◌, Option, none, some}
use code_workflow.Prelude.Int.{ℤ}
use code_workflow.Fsm.{is_terminal}
use code_workflow.Routing.{RouteAction, drop, route, defer}
use code_workflow.SessionLoop.{close_reconcile_held}
use code_workflow.SessionLoop.Process.{World, ◌▷◌, Outside, LivePr}
use code_workflow.SessionLoop.Process.Outcomes.{
  handed, ended, Next, Post-weaken, if-Post, either-Post, then-Next, handled-Next,
}
use code_workflow.SessionLoop.Process.Events.{Classified}
use code_workflow.SessionLoop.Process.Route.{
  Routed, routed, route_delivery, by_action, is_owner_reply, reply_to_pause, reset_budget,
  resume_writes,
}
use code_workflow.SessionLoop.Process.Heads.{
  fetch_live_pr, check_heads, check_opened, check_revised, is_taken_head, is_stale_head,
  head_of_kind, Watermark,
}

abbrev pub is_defer : RouteAction → Bool
is_defer defer = true
is_defer _ = false

module _ (o : Outside) where
  check_opened-Next :
      (r : Routed) (n : ℤ) (x : Option LivePr × World)
      → Next (λ h v. h.routed ≡ r) (check_opened r n x)
  check_opened-Next r n (live, w) = if-Post (λ e. ended tt) (λ e. handed refl)

  check_revised-Next :
      (r : Routed) (wm : Watermark) (sha : String) (x : Option LivePr × World)
      → Next (λ h v. h.routed ≡ r) (check_revised r wm sha x)
  check_revised-Next r wm sha (live, w) =
      either-Post (is_taken_head wm sha r.classified.taken.sess) (ended tt)
        (either-Post (is_stale_head sha live) (ended tt) (handed refl))

  head_of_kind-Next :
      (r : Routed) (w : World) (opened : Bool) (wm : Option Watermark) (sha : Option String)
      (n : Option ℤ)
      → Next (λ h v. h.routed ≡ r) (head_of_kind o r w opened wm sha n)
  head_of_kind-Next r w true wm sha none = handed refl
  head_of_kind-Next r w true wm sha (some n) = check_opened-Next r n _
  head_of_kind-Next r w false none sha n = handed refl
  head_of_kind-Next r w false (some wm) none n = handed refl
  head_of_kind-Next r w false (some wm) (some sha) none = handed refl
  head_of_kind-Next r w false (some wm) (some sha) (some n) =
      check_revised-Next r wm sha (fetch_live_pr o r.classified.taken.incoming.repo n w)

  pub check_heads-Next : (r : Routed) (w : World) → Next (λ h v. h.routed ≡ r) (check_heads o r w)
  unfolding check_heads
  check_heads-Next r w = head_of_kind-Next r w _ _ _ _

  reply_to_pause-Next : (r : Routed) (w : World) → Next (λ q v. q ≡ r) (reply_to_pause o r w)
  reply_to_pause-Next r w =
      let c = r.classified in
      either-Post (c.paused && is_owner_reply c.kind)
        (either-Post (close_reconcile_held c.state c.taken.sess) (ended tt) (
          then-Next (resume_writes o r.classified w) _
            (λ u v. either-Post (is_terminal c.state) (ended tt) (handled-Next _))))
        (handed refl)

  resumable-Next :
      (r : Routed) (w : World)
      → Next (λ q v. q ≡ r) (reset_budget o r w ▷ λ u v. reply_to_pause o r v)
  resumable-Next r w = then-Next (reset_budget o r w) _ (λ u v. reply_to_pause-Next r v)

  by_action-Next :
      (r : Routed) (w : World) (a : RouteAction)
      → Next (λ q v. (q ≡ r) × (is_defer a ≡ false)) (by_action o r w a)
  by_action-Next r w defer = either-Post (is_terminal r.classified.state) (ended tt) (ended tt)
  by_action-Next r w drop = Post-weaken (resumable-Next r w) (λ q v e. (e, refl))
  by_action-Next r w route = Post-weaken (resumable-Next r w) (λ q v e. (e, refl))

  pub route_delivery-Next :
      (c : Classified) (w : World)
      → Next
          (λ r v. (r ≡ routed o c) × (is_defer (routed o c).decision.action ≡ false))
          (route_delivery o c w)
  unfolding route_delivery
  route_delivery-Next c w = by_action-Next (routed o c) w _
