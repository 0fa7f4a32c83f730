-- ===== src/SessionLoop/Process/Route.antt =====
-- The routing of a delivery in `_process_one` of agentd/src/agentd/session_loop.py, and the owner's
-- reply to a paused session.
use code_workflow.Prelude.{String, some, Bool, true, false, ◌&&◌, [], ◌∷◌, if◌then◌else◌}
use code_workflow.Fsm.{EventKind, owner_reply, is_terminal}
use code_workflow.Routing.{RouteAction, defer, RouteDecision, RouteRequest, route_for_recipient}
use code_workflow.Store.Rows.{done}
use code_workflow.Store.Deliveries.{defer_delivery}
use code_workflow.Store.Sessions.Fields.{Field}
use code_workflow.SessionLoop.{
  Role, architect, developer, pick_recipient, close_reconcile_held, resume_from_escalation,
}
use code_workflow.SessionLoop.Process.{
  World, Outcome, next, finished, ◌▷◌, Outside, end_with, end_handled, write_fields, stored, put,
  role_text,
}
use code_workflow.SessionLoop.Process.Admit.{Taken}
use code_workflow.SessionLoop.Process.Events.{Classified}

pub record Routed : Type 0 where
  pub classified : Classified
  pub role : Role
  pub decision : RouteDecision

abbrev other_login : Taken → Role → String
other_login t architect = t.developer
other_login t developer = t.architect

abbrev pub is_owner_reply : EventKind → Bool
is_owner_reply owner_reply = true
is_owner_reply _ = false

module _ (o : Outside) where
  abbrev pub request_of : Classified → Role × String → RouteRequest
  request_of c recipient = record {
    sender = some c.taken.incoming.sender;
    recipient_login = recipient.1;
    recipient_role = role_text recipient.0;
    other_bot_login = some (other_login c.taken recipient.0);
    owner = o.owner;
    body = c.taken.incoming.comment_body;
    session_paused = c.paused;
    bot_logins = some (c.taken.architect ∷ c.taken.developer ∷ o.all_bot_logins);
  }

  abbrev pub recipient_of : Classified → Role × String
  recipient_of c = pick_recipient c.kind c.taken.architect c.taken.developer c.taken.incoming.sender

  abbrev pub routed : Classified → Routed
  routed c = record {
    classified = c;
    role = (recipient_of c).0;
    decision = route_for_recipient (request_of c (recipient_of c));
  }

  abbrev pub resume_writes : Classified → World → Outcome Unit
  resume_writes c w =
      let t = c.taken in
      stored w (resume_from_escalation o.now t.sess t.incoming.delivery_id w.store)

  -- A terminal session is not resumed.
  abbrev resumed : Classified → World → Outcome Routed
  resumed c w =
      let t = c.taken in
      if is_terminal c.state
      then finished w
      else end_handled (o.resume_turn t.incoming t.sess t.issue_num w)

  -- The owner's reply to a paused session resumes it; a hold is no question.
  abbrev pub reply_to_pause : Routed → World → Outcome Routed
  reply_to_pause r w =
      let c = r.classified in
      if c.paused && is_owner_reply c.kind
      then if close_reconcile_held c.state c.taken.sess
        then end_with done c.taken.incoming w
        else resume_writes c w ▷ (λ u w'. resumed c w')
      else next r w

  abbrev pub reset_budget : Routed → World → Outcome Unit
  reset_budget r w =
      if r.decision.reset_consec
      then write_fields o r.classified.taken.session_key
          (Field.consec_agent_turns 0 ∷ Field.silent_turns 0 ∷ []) w
      else next tt w

  abbrev pub deferred : Classified → World → Outcome Routed
  deferred c w =
      if is_terminal c.state
      then end_with done c.taken.incoming w
      else finished (put (defer_delivery o.now c.taken.incoming.delivery_id w.store) w)

  abbrev pub by_action : Routed → World → RouteAction → Outcome Routed
  by_action r w defer = deferred r.classified w
  by_action r w _ = reset_budget r w ▷ λ u w'. reply_to_pause r w'

  unfoldable pub route_delivery : Classified → World → Outcome Routed
  unfolding route_for_recipient pick_recipient close_reconcile_held resume_from_escalation
  route_delivery c w = by_action (routed c) w (routed c).decision.action
