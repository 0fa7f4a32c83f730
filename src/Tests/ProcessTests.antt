-- ===== src/Tests/ProcessTests.antt =====
-- `_process_one` of agentd/src/agentd/session_loop.py on single deliveries.
use code_workflow.Prelude.{
  ℕ, ◌≡◌, ◌≤◌, refl, none, some, [], ◌∷◌, true, false, lower, strip, upper, str_eq, if◌then◌else◌,
}
use code_workflow.Prelude.Int.{pos}
use code_workflow.Prelude.Decimal.{decimal, decimal_ℤ}
use code_workflow.Prelude.Split.{◌+++◌}
use code_workflow.Fsm.{EventKind, merge_authorized, code_review}
use code_workflow.Routing.{route, route_for_recipient}
use code_workflow.Gitops.{parse_role_branch}
use code_workflow.Store.Rows.{Session}
use code_workflow.Store.Sessions.Fields.{update_session_fields}
use code_workflow.Verify.{retry, api_error, check_approver_on_head}
use code_workflow.Verify.CheckClasses.{classify_required_checks}
use code_workflow.SessionLoop.{comment, architect}
use code_workflow.SessionLoop.Process.{
  Incoming, World, next, finished, returned, Outside, TurnRequest, ensure_failed, no_turn,
  escalate_done,
}
use code_workflow.SessionLoop.Process.Events.{Classified, is_review_part}
use code_workflow.SessionLoop.Process.Approvals.{
  check_design, check_feature, forget_attempts, transient_refusal,
}
use code_workflow.SessionLoop.Process.Route.{request_of, recipient_of}
use code_workflow.SessionLoop.Process.Step.{turn_of}
use code_workflow.SessionLoop.Process.StepGates.{Passed}
use code_workflow.SessionLoop.Process.Dispatch.{retry_or_give_up}
use code_workflow.SessionLoop.Process.Whole.{verified_delivery, decide_turn, process_one}
use code_workflow.SessionLoop.Process.Gates.{
  IsShown, routing, verified_delivery_ok, decide_turn_gates, paused_turn,
}
use code_workflow.SessionLoop.Process.Retries.{tries, dispatch_gives_up, merge_gives_up}
use code_workflow.Tests.RowTests.{one_session, the_session}
use code_workflow.Tests.VerifyTests.{some_github}
use code_workflow.Tests.LoopTests.{a_config, some_sources}

-- GitHub has an approval of alice and a green check; nothing else answers.
abbrev pub outside : Outside
outside = record {
  now = 9;
  owner = "olga";
  claude_login = none;
  grok_login = none;
  all_bot_logins = [];
  intake = a_config;
  required_checks = λ repo. "ci" ∷ [];
  silent_turn_limit = 3;
  has_supervisor = true;
  dispatch_turns = true;
  post_comment = λ key reason. comment 1;
  github = some_github;
  approval_token = some "t";
  api_token = some "t";
  reason_text = λ r. "reason";
  silent_text = λ b. "silent";
  issue_body = λ repo n. some "body";
  patch_issue_body = λ repo n body. true;
  defuse_closing_keywords = λ body nums repo. none;
  fetch_pr = λ repo n. none;
  stall_sources = λ sess e. some some_sources;
  ensure_session = λ key repo n a d w. ensure_failed w;
  structural_refusal = λ key e reason w. returned w;
  issue_closed = λ e sess n w. returned w;
  issue_edited = λ e sess n w. returned w;
  resume_turn = λ e sess n w. returned w;
  dispatch_turn = λ t w. no_turn w;
  observed_progress = λ t w. (false, false);
}

abbrev reviewing : Session
reviewing = record the_session {
  session_key = "o/r#7";
  project_key = "o/r";
  repo = "o/r";
  issue_num = 7;
  state = code_review;
  paused_reason = none;
  architect = "alice";
  developer = "bob";
  feature_pr = some 12;
  turn_count = 0;
  consec_agent_turns = 0;
  review_rounds = 0;
}

abbrev pub world_of : Session → World
world_of x = record {
  store = record one_session { sessions = x ∷ [] };
  merge_auth_attempts = λ id. 0;
  delivery_attempts = λ id. 0;
  spent_prs = [];
  role_busy_until = λ key. 0;
}

abbrev approval : Incoming
approval = record {
  delivery_id = "d1";
  event = "pull_request_review";
  action = some "submitted";
  repo = "o/r";
  issue_num = some 12;
  sender = "alice";
  received_at = 5;
  payload = none;
  pull_author = some "bob";
  pull_number = some 12;
  head_ref = some "agentd/o__r/7/developer";
  head_sha = some "bbb";
  issue_is_pull = false;
  issue_author = none;
  issue_number = none;
  comment_body = none;
  parts = record {
    is_design = false;
    is_feature = true;
    merged = false;
    review_state = some "approved";
  };
}

abbrev approved_merge : Classified
approved_merge = record {
  taken = record {
    incoming = approval;
    issue_num = pos 7;
    session_key = "o/r#7";
    sess = reviewing;
    architect = "alice";
    developer = "bob";
  };
  state = code_review;
  paused = false;
  kind = merge_authorized;
}

approval_run :
    verified_delivery outside approval (world_of reviewing)
    ≡ next approved_merge (forget_attempts approval (world_of reviewing))
unfolding verified_delivery parse_role_branch decimal_ℤ lower upper check_approver_on_head
    classify_required_checks
approval_run = refl

verified_delivery_ok_example :
    (approved_merge.taken.incoming ≡ approval)
    × ((approved_merge.kind ≡ merge_authorized
          → (check_feature outside approved_merge.taken).ok ≡ true)
        × (approved_merge.kind ≡ EventKind.design_approved
            → (check_design outside approved_merge.taken).ok ≡ true))
verified_delivery_ok_example =
    verified_delivery_ok outside approval (world_of reviewing)
      (forget_attempts approval (world_of reviewing)) approved_merge approval_run

abbrev pub remark : Incoming
remark = record approval {
  event = "issue_comment";
  action = some "created";
  issue_num = some 7;
  sender = "carol";
  pull_author = none;
  pull_number = none;
  head_ref = none;
  head_sha = none;
  issue_author = some "carol";
  issue_number = some 7;
  comment_body = some "a question";
  parts = record { is_design = false; is_feature = false; merged = false; review_state = none };
}

-- The architect's turn on a collaborator's comment.
abbrev remark_turn : TurnRequest
remark_turn = record {
  incoming = remark;
  issue_num = pos 7;
  session_key = "o/r#7";
  architect_login = "alice";
  developer_login = "bob";
  role = architect;
  kind = EventKind.other "issue_comment.created";
  state_before_turn = code_review;
}

remark_run : decide_turn outside remark (world_of reviewing) ≡ next remark_turn (world_of reviewing)
unfolding decide_turn decimal_ℤ lower upper strip update_session_fields
remark_run = refl

decide_turn_gates_example :
    (c : Classified) × ((v : World) × (IsShown outside remark (world_of reviewing) c v
        × ((c.taken.incoming ≡ remark)
            × ((is_review_part remark.event ≡ false)
                × (((route_for_recipient (request_of outside c (recipient_of outside c))).action
                      ≡ route)
                    × ((remark_turn ≡ turn_of (routing outside c))
                        × Passed outside
                            (routing outside c)
                            (world_of reviewing).role_busy_until))))))
decide_turn_gates_example =
    decide_turn_gates outside remark (world_of reviewing) (world_of reviewing) remark_turn
      remark_run

-- A session that a pause has stopped, and an event that the owner sent.
abbrev paused_session : Session
paused_session = record reviewing { paused_reason = some "a question" }

abbrev owner_push : Incoming
owner_push = record remark { event = "push"; action = none; sender = "Olga" }

abbrev owner_turn : TurnRequest
owner_turn = record remark_turn { incoming = owner_push; kind = EventKind.other "push.none" }

owner_run :
    decide_turn outside owner_push (world_of paused_session)
    ≡ next owner_turn (world_of (record paused_session { updated_at = 9; consec_agent_turns = 0 }))
unfolding decide_turn decimal_ℤ lower upper strip update_session_fields
owner_run = refl

abbrev owner_classified : Classified
owner_classified = record {
  taken = record {
    incoming = owner_push;
    issue_num = pos 7;
    session_key = "o/r#7";
    sess = paused_session;
    architect = "alice";
    developer = "bob";
  };
  state = code_review;
  paused = true;
  kind = EventKind.other "push.none";
}

owner_shown :
    verified_delivery outside owner_push (world_of paused_session)
    ≡ next owner_classified (world_of paused_session)
unfolding verified_delivery decimal_ℤ lower upper strip
owner_shown = refl

paused_turn_example : lower "Olga" ≡ lower "olga"
paused_turn_example =
    paused_turn outside owner_push (world_of paused_session)
      (world_of (record paused_session { updated_at = 9; consec_agent_turns = 0 }))
      (world_of paused_session) owner_turn owner_classified owner_run owner_shown refl

-- The supervisor gives no turn: the delivery stays as it is.
remark_kept :
    process_one outside remark (world_of reviewing)
    ≡ finished
        (record (world_of reviewing) { delivery_attempts = λ k. if str_eq k "d1" then 1 else 0 })
unfolding process_one decimal_ℤ lower upper strip update_session_fields
remark_kept = refl

dispatch_gives_up_example :
    let w = world_of reviewing in
    let step = retry_or_give_up outside "no turn" remark_turn in
    ((k : ℕ) → k ≤ 4 → (v : World) × ((tries step k w ≡ finished v) × (v.store ≡ w.store)))
    × ((v : World) × ((tries step 5 w
            ≡ escalate_done outside "o/r#7"
                ("dispatch still failing after " +++ decimal 5 +++ " attempts: " +++ "no turn")
                remark
                v)
          × ((v.store ≡ w.store) × (v.delivery_attempts "d1" ≡ 0))))
dispatch_gives_up_example =
    dispatch_gives_up outside "no turn" remark_turn (world_of reviewing) refl

merge_gives_up_example :
    let w = world_of reviewing in
    let step = transient_refusal outside approved_merge (retry api_error) in
    ((k : ℕ) → k ≤ 4 → (v : World) × ((tries step k w ≡ finished v) × (v.store ≡ w.store)))
    × ((v : World) × ((tries step 5 w
            ≡ escalate_done outside "o/r#7"
                ("feature merge authorization still not ready after "
                  +++ decimal 5
                  +++ " attempts (was transient): "
                  +++ "reason")
                approval
                v)
          × ((v.store ≡ w.store) × (v.merge_auth_attempts "d1" ≡ 0))))
merge_gives_up_example =
    merge_gives_up outside approved_merge (retry api_error) (world_of reviewing) refl
