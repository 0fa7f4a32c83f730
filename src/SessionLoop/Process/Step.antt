-- ===== src/SessionLoop/Process/Step.antt =====
-- The transition of `_process_one` of agentd/src/agentd/session_loop.py, and the gates between it and
-- a turn. The verification block that a Feature merge adds to the issue's body is a write to GitHub
-- only, and is left out.
use code_workflow.Prelude.{
  String, Option, none, some, List, [], ◌∷◌, Bool, true, false, not, ◌&&◌, if◌then◌else◌, str_eq,
  strip, ltb,
}
use code_workflow.Prelude.Int.{ℤ}
use code_workflow.Prelude.Split.{◌+++◌, is_empty}
use code_workflow.Prelude.Decimal.{decimal}
use code_workflow.Fsm.{
  SessionState, EventKind, Transition, transition, is_terminal, design_merged, feature_merged,
  design_changes_requested, design_revised, code_changes_requested, feature_revised,
}
use code_workflow.LoopSafety.{StallSignal, fingerprint_repeat, zero_thread}
use code_workflow.Routing.{RouteAction, drop}
use code_workflow.Store.Rows.{done}
use code_workflow.Store.Deliveries.{defer_delivery_until}
use code_workflow.Store.Sessions.Fields.{Field}
use code_workflow.SessionLoop.{advance, close_reconcile_held}
use code_workflow.SessionLoop.StallSignals.{
  Sources, observe_stall_signals, Observed, stalled, goes_on,
}
use code_workflow.SessionLoop.Process.{
  Incoming, World, Outcome, next, finished, raised, ◌▷◌, Outside, TurnRequest, end_with,
  escalate_done, write_fields, stored, put, role_text,
}
use code_workflow.SessionLoop.Process.Resolve.{pr_number_from_payload, payload_head_sha}
use code_workflow.SessionLoop.Process.Heads.{
  Watermark, design_pr_head, feature_pr_head, Headed, head_wm, is_opened, live_sha, pr_is_spent,
}

abbrev pub state_after : SessionState → Option Transition → SessionState
state_after state none = state
state_after state (some tr) = tr.new_state

-- The state of the session after the delivery's transition.
unfoldable pub next_state : Headed → SessionState
unfolding transition
next_state h = let c = h.routed.classified in state_after c.state (transition (some c.state) c.kind)

abbrev pub incoming_of : Headed → Incoming
incoming_of h = h.routed.classified.taken.incoming

-- kind in _MERGE_KINDS
abbrev pub is_merge_kind : EventKind → Bool
is_merge_kind design_merged = true
is_merge_kind feature_merged = true
is_merge_kind _ = false

-- The kinds after which the stall signals are observed.
abbrev pub is_observed_kind : EventKind → Bool
is_observed_kind design_changes_requested = true
is_observed_kind design_revised = true
is_observed_kind code_changes_requested = true
is_observed_kind feature_revised = true
is_observed_kind _ = false

abbrev pub is_drop : RouteAction → Bool
is_drop drop = true
is_drop _ = false

abbrev pub stall_text : StallSignal → String
stall_text (fingerprint_repeat n) =
    "stall: progress fingerprint identical "
    +++ decimal n
    +++ " consecutive turns after a head change"
stall_text (zero_thread n) = "stall: zero thread progress for " +++ decimal n +++ " review rounds"

-- The head to stamp: for an opened pull request the one that GitHub shows, else the payload's.
abbrev pub stamp_sha : Headed → Option String
stamp_sha h =
    if is_opened h.routed.classified.kind && not (is_empty (live_sha h.live_pr))
    then some (live_sha h.live_pr)
    else payload_head_sha (incoming_of h)

abbrev pub wm_fields : Option Watermark → Option String → List Field
wm_fields (some design_pr_head) (some sha) = Field.design_pr_head (some sha) ∷ []
wm_fields (some feature_pr_head) (some sha) = Field.feature_pr_head (some sha) ∷ []
wm_fields _ _ = []

-- `_role_key`, of the session's project or else the repository's
abbrev pub role_key : Headed → String
role_key h =
    let t = h.routed.classified.taken in
    let project = t.sess.project_key in
    (if str_eq project "" then strip t.incoming.repo else project)
    +++ "::"
    +++ role_text h.routed.role

abbrev pub turn_of : Headed → TurnRequest
turn_of h =
    let c = h.routed.classified in
    record {
      incoming = c.taken.incoming;
      issue_num = c.taken.issue_num;
      session_key = c.taken.session_key;
      architect_login = c.taken.architect;
      developer_login = c.taken.developer;
      role = h.routed.role;
      kind = c.kind;
      state_before_turn = c.state;
    }

module _ (o : Outside) where
  -- The store's part of the transition.
  abbrev pub take_step : Headed → World → Outcome Headed
  take_step h w =
      let c = h.routed.classified in
      stored w
        (advance o.now c.taken.session_key c.state c.kind c.taken.incoming.pull_number w.store)
      ▷ λ u w'. next h w'

  abbrev pub check_terminal : Headed → World → Outcome Headed
  check_terminal h w =
      if is_terminal (next_state h) then end_with done (incoming_of h) w else next h w

  abbrev pub spent_or : Headed → Bool × World → Outcome Headed
  spent_or h (spent, w) = if spent then end_with done (incoming_of h) w else next h w

  abbrev pub check_spent_pr : Headed → World → Option ℤ → Outcome Headed
  check_spent_pr h w none = next h w
  check_spent_pr h w (some n) = spent_or h (pr_is_spent o (incoming_of h).repo n h.live_pr w)

  abbrev pub check_spent : Headed → World → Outcome Headed
  check_spent h w =
      let t = h.routed.classified.taken in
      if is_merge_kind h.routed.classified.kind
      then next h w
      else check_spent_pr h w (pr_number_from_payload t.incoming t.issue_num)

  abbrev pub stamp_head : Headed → World → Outcome Headed
  stamp_head h w =
      let c = h.routed.classified in
      write_fields o c.taken.session_key (wm_fields (head_wm c.kind) (stamp_sha h)) w ▷ λ u w'.
      next h w'

  abbrev pub check_hold : Headed → World → Outcome Headed
  check_hold h w =
      if close_reconcile_held (next_state h) h.routed.classified.taken.sess
      then end_with done (incoming_of h) w
      else next h w

  abbrev pub check_role : Headed → World → Outcome Headed
  check_role h w =
      let held_until = w.role_busy_until (role_key h) in
      if ltb o.now held_until
      then finished (put (defer_delivery_until (incoming_of h).delivery_id held_until w.store) w)
      else next h w

  abbrev pub observed : Headed → World → Observed → Outcome Headed
  observed h w (stalled signal) =
      escalate_done o h.routed.classified.taken.session_key (stall_text signal) (incoming_of h) w
  observed h w (goes_on fields) =
      write_fields o h.routed.classified.taken.session_key fields w ▷ λ u w'. next h w'

  abbrev pub stall_of : Headed → Sources → Observed
  stall_of h sources =
      let c = h.routed.classified in
      observe_stall_signals sources c.taken.incoming.head_sha c.kind c.taken.sess

  abbrev pub observed_with : Headed → World → Option Sources → Outcome Headed
  observed_with h w none = raised w
  observed_with h w (some sources) = observed h w (stall_of h sources)

  abbrev pub check_stall : Headed → World → Outcome Headed
  check_stall h w =
      let c = h.routed.classified in
      if not (is_drop h.routed.decision.action) && is_observed_kind c.kind
      then observed_with h w (o.stall_sources c.taken.sess c.taken.incoming)
      else next h w

  abbrev pub check_drop : Headed → World → Outcome TurnRequest
  check_drop h w =
      if is_drop h.routed.decision.action
      then end_with done (incoming_of h) w
      else next (turn_of h) w

  unfoldable pub step_delivery : Headed → World → Outcome TurnRequest
  unfolding next_state advance pr_is_spent close_reconcile_held observe_stall_signals
  step_delivery h w =
      take_step h w
      ▷ check_terminal
      ▷ check_spent
      ▷ stamp_head
      ▷ check_hold
      ▷ check_role
      ▷ check_stall
      ▷ check_drop
