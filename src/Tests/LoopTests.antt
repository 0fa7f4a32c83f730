-- ===== src/Tests/LoopTests.antt =====
-- agentd/src/agentd/session_loop.py, dispatcher.py and intake.py on one session.
use code_workflow.Prelude.{
  ◌≤◌, ◌≡◌, ◌≢◌, ◌↔◌, refl, String, none, some, [], ◌∷◌, true, false, ◌&&◌, ◌==◌, leb, arith,
  if◌then◌else◌, is_some, lower,
}
use code_workflow.Fsm.{
  planning, design_review, owner_reply, design_pr_opened, design_changes_requested, transition,
}
use code_workflow.Payload.{Envelope, named}
use code_workflow.Intake.{Config, may_create_session}
use code_workflow.Intake.Accepted.{IsOpening, IsWelcomeBody, may_create_session_iff}
use code_workflow.LoopSafety.{zero_thread}
use code_workflow.Store.Rows.{Store, Delivery, Session, empty_store, queued}
use code_workflow.Store.Breaker.{is_disk_paused}
use code_workflow.Store.Deliveries.{queue_depth}
use code_workflow.Store.Sessions.{upsert_session}
use code_workflow.Store.Sessions.Fields.{update_session_fields}
use code_workflow.Store.Sessions.Writes.{find}
use code_workflow.Dispatcher.{drain_once}
use code_workflow.Dispatcher.Drain.{drain_once-queue_depth}
use code_workflow.SessionLoop.{advance}
use code_workflow.SessionLoop.Locks.{Reaches, here, step, advanced, past_planning-roles_locked}
use code_workflow.SessionLoop.Kinds.{EventData, is_action, event_kind}
use code_workflow.SessionLoop.Privileges.{
  is_privileged, event_kind-unprivileged, event_kind-owner_reply,
}
use code_workflow.SessionLoop.StallSignals.{
  Sources, is_rework, threads_resolved, observe_stall_signals,
}
use code_workflow.SessionLoop.Unarmed.{stall_signal, observe_stall_signals_lem}
use code_workflow.Tests.RowTests.{one_session, the_session, found_session}

abbrev pub a_config : Config
a_config = record { intake_actors = "collaborators"; intake_mode = "label"; intake_label = "agent" }

abbrev labeled_issue : Envelope
labeled_issue = record {
  comment_node = none;
  review_node = none;
  pull_request_node = none;
  issue_node = some "I1";
  issue_association = some "owner";
  association = none;
  issue_labels = [];
  label = some (named (some "agent"));
}

may_create_session_example :
    (may_create_session "issues" (some "labeled") (some labeled_issue) a_config ≡ true) ↔ (
      (◌≡◌ {A = String} "issues" "issues")
      × IsOpening (some "labeled")
      × IsWelcomeBody a_config "labeled" (some labeled_issue))
may_create_session_example =
    may_create_session_iff "issues" (some "labeled") (some labeled_issue) a_config

abbrev queued_issue : Delivery
queued_issue = record {
  delivery_id = "d1";
  event = "issues";
  action = some "labeled";
  repo = "o/r";
  issue_num = some 7;
  sender = "alice";
  received_at = 3;
  payload = some labeled_issue;
  status = queued;
  next_attempt_at = 0;
  defer_count = 0;
}

abbrev one_queued : Store
one_queued = record empty_store { deliveries = queued_issue ∷ [] }

breaker_closed : is_disk_paused one_queued ≡ false
unfolding is_disk_paused
breaker_closed = refl

short_queue : queue_depth one_queued ≤ 100
unfolding queue_depth
short_queue = omega arith

drain_once-queue_depth_example :
    (queue_depth (drain_once a_config (λ k. false) none one_queued).0 ≡ 0)
    × (is_disk_paused (drain_once a_config (λ k. false) none one_queued).0 ≡ false)
    × ((drain_once a_config (λ k. false) none one_queued).1 ≡ queue_depth one_queued)
drain_once-queue_depth_example =
    drain_once-queue_depth a_config one_queued breaker_closed short_queue

abbrev in_review : Session
in_review = record the_session {
  state = design_review;
  roles_locked = 1;
  design_pr = some 12;
  updated_at = 7;
}

abbrev reviewed : Store
reviewed = record one_session { sessions = in_review ∷ [] }

opens_design_pr : advance 7 "o/r#7" planning design_pr_opened (some 12) one_session ≡ some reviewed
unfolding advance transition update_session_fields upsert_session
opens_design_pr = refl

Reaches-review : Reaches "o/r#7" one_session reviewed
Reaches-review = step here (advanced found_session 7 design_pr_opened (some 12) opens_design_pr)

review_is_found : find "o/r#7" reviewed ≡ some in_review
review_is_found = refl

past_planning-roles_locked_example : in_review.roles_locked ≡ 1
past_planning-roles_locked_example =
    past_planning-roles_locked "o/r#7" one_session reviewed the_session in_review found_session refl
      refl Reaches-review review_is_found refl

abbrev pub some_sources : Sources
some_sources = record {
  threads = some (record { base_ref = some "main"; head_oid = none; open_thread_ids = "T1" ∷ [] });
  diff = λ base head. some "1 file changed";
  fingerprint = λ ids n diff. "fp";
}

abbrev third_round : Session
third_round = record the_session { zero_thread_rounds = 2; stall_open_threads = some ("T1" ∷ []) }

observe_stall_signals_example :
    stall_signal
      (observe_stall_signals some_sources (some "h") design_changes_requested third_round)
    ≡ (if is_rework design_changes_requested
          && is_some some_sources.threads
          && (threads_resolved some_sources.threads ("T1" ∷ []) == 0)
          && leb 2 2
        then some (zero_thread 3)
        else none)
observe_stall_signals_example =
    observe_stall_signals_lem some_sources (some "h") design_changes_requested third_round

two_logins : lower "alice" ≢ lower "bob"
unfolding lower
two_logins e = cc e

abbrev merged_design : EventData
merged_design = record {
  is_design = true;
  is_feature = false;
  merged = true;
  review_state = some "approved";
}

event_kind-unprivileged_example :
    is_privileged (event_kind "pull_request_review" (some "submitted") merged_design "alice" "bob")
    ≡ false
event_kind-unprivileged_example =
    event_kind-unprivileged "pull_request_review" (some "submitted") merged_design "alice" "bob"

event_kind-owner_reply_example :
    (event_kind "issue_comment" (some "created") merged_design "Bob" "bob" ≡ owner_reply) ↔ (
      ◌≡◌ {A = String} "issue_comment" "issue_comment"
      × (is_action (some "created") "created" ≡ true)
      × (lower "Bob" ≡ lower "bob"))
event_kind-owner_reply_example =
    event_kind-owner_reply "issue_comment" (some "created") merged_design "Bob" "bob"
