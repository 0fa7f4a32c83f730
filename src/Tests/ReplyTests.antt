-- ===== src/Tests/ReplyTests.antt =====
-- The owner's reply, in session_loop.py, to a session that was escalated twice.
use code_workflow.Prelude.{◌≡◌, ◌≢◌, refl, false, true, some, [], ◌∷◌}
use code_workflow.Prelude.Int.{pos}
use code_workflow.Fsm.{planning, paused_human, closed}
use code_workflow.Store.Rows.{Store, Session, done}
use code_workflow.Store.Deliveries.{set_delivery_status}
use code_workflow.Store.Sessions.Writes.{find}
use code_workflow.SessionLoop.{comment, post_failed}
use code_workflow.SessionLoop.Pause.{Escalating, IsResumed}
use code_workflow.SessionLoop.Replies.{
  escalate_all, reply_of, is_held, escalations-resume, escalations-stay_held,
}
use code_workflow.SessionLoop.Process.{World, put, finished, end_handled}
use code_workflow.SessionLoop.Process.Route.{reply_to_pause}
use code_workflow.Tests.RowTests.{one_session, the_session, found_session}
use code_workflow.Tests.ProcessTests.{outside, world_of, remark}

abbrev over_budget : Escalating
over_budget = record {
  now = 4;
  role = "system";
  reason = "budget";
  posted = comment 11;
  hold = false;
}

abbrev comment_lost : Escalating
comment_lost = record {
  now = 5;
  role = "developer";
  reason = "stuck";
  posted = post_failed "502";
  hold = false;
}

not_paused : planning ≢ paused_human
not_paused e = cc e

not_closed : planning ≢ closed
not_closed e = cc e

abbrev closed_issue : Escalating
closed_issue = record over_budget { hold = true }

no_hold : is_held comment_lost ≡ false
no_hold = refl

abbrev a_world : World
a_world = world_of the_session

escalations-resume_example :
    (q : Store) × (p : Session) × (r : Store) × (escalate_all "o/r#7"
        (over_budget ∷ comment_lost ∷ [])
        one_session
      ≡ some q)
    × (find "o/r#7" q ≡ some p)
    × (p.state ≡ paused_human)
    × (reply_to_pause outside (reply_of outside remark p) (put q a_world)
        ≡ end_handled (outside.resume_turn remark p (pos p.issue_num) (put r (put q a_world))))
    × IsResumed planning "o/r#7" r
escalations-resume_example =
    escalations-resume outside remark a_world "o/r#7" over_budget (comment_lost ∷ []) one_session
      the_session found_session not_paused not_closed no_hold

escalations-stay_held_example :
    (q : Store) × (p : Session) × (escalate_all "o/r#7"
        (over_budget ∷ closed_issue ∷ [])
        one_session
      ≡ some q)
    × (reply_to_pause outside (reply_of outside remark p) (put q a_world)
        ≡ finished (put (set_delivery_status remark.delivery_id done q) a_world))
    × (find "o/r#7" (set_delivery_status remark.delivery_id done q) ≡ some p)
    × (p.state ≡ paused_human)
    × (p.resume_state ≡ some planning)
escalations-stay_held_example =
    escalations-stay_held outside remark a_world "o/r#7" over_budget (closed_issue ∷ []) one_session
      the_session found_session not_paused not_closed refl
