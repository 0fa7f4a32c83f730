-- ===== src/SessionLoop/Process.antt =====
-- What `_process_one` of agentd/src/agentd/session_loop.py works on: the delivery, the state of the
-- process and of the store, what it asks of other parts, and how one of its steps ends.
-- The clock is read once for a delivery, in seconds.
pub mod Resolve
pub mod Admit
pub mod Events
pub mod Approvals
pub mod Merges
pub mod Route
pub mod Heads
pub mod Step
pub mod Dispatch
pub mod Whole
pub mod Outcomes
pub mod EntryGates
pub mod ApprovalGates
pub mod RouteGates
pub mod StepGates
pub mod Gates
pub mod Retries
use code_workflow.Prelude.{
  ℕ, String, Option, none, some, List, [], ◌∷◌, Bool, true, false, ◌&&◌, if◌then◌else◌, str_eq, any,
}
use code_workflow.Prelude.Int.{ℤ}
use code_workflow.Prelude.Split.{◌+++◌}
use code_workflow.Prelude.Decimal.{decimal_ℤ}
use code_workflow.Fsm.{SessionState, EventKind}
use code_workflow.Payload.{Payload}
use code_workflow.Intake.{Config}
use code_workflow.Verify.{Github, Reason}
use code_workflow.LoopSafety.{PublicAction, SilentBreach}
use code_workflow.Routing.{RouteDecision}
use code_workflow.Store.Rows.{Store, Session, Status, done}
use code_workflow.Store.Deliveries.{set_delivery_status}
use code_workflow.Store.Sessions.Fields.{Field, update_session_fields}
use code_workflow.SessionLoop.{Role, architect, developer, Posted, escalate}
use code_workflow.SessionLoop.Kinds.{EventData}
use code_workflow.SessionLoop.StallSignals.{Sources}

-- The row of the delivery and what is read of its body; a text or number that is absent or falsy is
-- `none`. `parts` is what `_event_kind` reads.
pub record Incoming : Type 0 where
  pub delivery_id : String
  pub event : String
  pub action : Option String
  pub repo : String
  pub issue_num : Option ℕ
  pub sender : String
  pub received_at : ℕ
  pub payload : Payload
  -- data["pull_request"]: the author's login, the number, and the head's ref and sha
  pub pull_author : Option String
  pub pull_number : Option ℕ
  pub head_ref : Option String
  pub head_sha : Option String
  -- data["issue"]: whether its `pull_request` is a dictionary, the author's login, the number
  pub issue_is_pull : Bool
  pub issue_author : Option String
  pub issue_number : Option ℕ
  -- data["comment"]["body"]
  pub comment_body : Option String
  pub parts : EventData

-- The store, and the dictionaries of the module: a number of attempts is 0 where there is no entry,
-- and the end of a role's hold is 0.
pub record World : Type 0 where
  pub store : Store
  pub merge_auth_attempts : String → ℕ
  pub delivery_attempts : String → ℕ
  pub spent_prs : List (String × ℤ)
  pub role_busy_until : String → ℕ

-- A step hands a value on, or `_process_one` has returned, or it has raised an exception.
pub data Outcome (A : Type 0) : Type 0 where
  next : A → World → Outcome A
  finished : World → Outcome A
  raised : World → Outcome A

infixl 15 ◌▷◌
abbrev pub ◌▷◌ : {A B : Type 0} → Outcome A → (A → World → Outcome B) → Outcome B
next a w ▷ f = f a w
finished w ▷ f = finished w
raised w ▷ f = raised w

-- What a handler that is not modelled comes to: it has returned, or an exception has escaped it.
pub data Handled : Type 0 where
  returned escaped : World → Handled

abbrev pub end_handled : {A : Type 0} → Handled → Outcome A
end_handled (returned w) = finished w
end_handled (escaped w) = raised w

-- The dictionary that `_fetch_live_pr` gives.
pub record LivePr : Type 0 where
  pub merged : Bool
  pub state : String
  pub head_sha : Option String

-- A turn that is to be run, with the state before the delivery's own transition.
pub record TurnRequest : Type 0 where
  pub incoming : Incoming
  pub issue_num : ℤ
  pub session_key : String
  pub architect_login : String
  pub developer_login : String
  pub role : Role
  pub kind : EventKind
  pub state_before_turn : SessionState

pub data Ensured : Type 0 where
  ensured capacity_refused ensure_failed : World → Ensured
  structural_refused : String → World → Ensured

-- What `_dispatch_turn` comes to: no turn, a refusal of the supervisor, another exception, or the turn's
-- status and claimed actions.
pub data Dispatched : Type 0 where
  no_turn dispatch_failed : World → Dispatched
  no_capacity no_structure : String → World → Dispatched
  ran : Option String → List PublicAction → World → Dispatched

-- The settings, GitHub, the supervisor, and the handlers that are not modelled here.
pub record Outside : Type 0 where
  pub now : ℕ
  pub owner : String
  pub claude_login : Option String
  pub grok_login : Option String
  pub all_bot_logins : List String
  pub intake : Config
  pub required_checks : String → List String
  pub silent_turn_limit : ℕ
  pub has_supervisor : Bool
  pub dispatch_turns : Bool
  -- of the session's key and the reason
  pub post_comment : String → String → Posted
  pub github : Github
  pub approval_token : Option String
  pub api_token : Option String
  pub reason_text : Reason → String
  pub silent_text : SilentBreach → String
  -- of a repository and a number; `none` is an exception
  pub issue_body : String → ℕ → Option String
  pub patch_issue_body : String → ℕ → String → Bool
  -- of the body, the numbers of the sessions' issues and the repository
  pub defuse_closing_keywords : String → List ℕ → String → Option String
  -- `none` if there is no fetch or no token, or the fetch fails
  pub fetch_pr : String → ℤ → Option LivePr
  -- `none` is an exception
  pub stall_sources : Session → Incoming → Option Sources
  pub ensure_session : String → String → ℤ → String → String → World → Ensured
  pub structural_refusal : String → Incoming → String → World → Handled
  pub issue_closed : Incoming → Session → ℤ → World → Handled
  pub issue_edited : Incoming → Session → ℤ → World → Handled
  -- what `_resume_from_escalation` does after its writes to the session
  pub resume_turn : Incoming → Session → ℤ → World → Handled
  pub dispatch_turn : TurnRequest → World → Dispatched
  -- whether progress was observed, and whether the turn's window was examined
  pub observed_progress : TurnRequest → World → Bool × Bool

abbrev pub put : Store → World → World
put s w = record w { store = s }

-- self.store.set_delivery_status(delivery_id, status), and return
abbrev pub end_with : {A : Type 0} → Status → Incoming → World → Outcome A
end_with status e w = finished (put (set_delivery_status e.delivery_id status w.store) w)

abbrev pub stored : World → Option Store → Outcome Unit
stored w none = raised w
stored w (some s) = next tt (put s w)

module _ (o : Outside) where
  abbrev pub write_fields : String → List Field → World → Outcome Unit
  write_fields key fs w = stored w (update_session_fields o.now key fs w.store)

  -- `_escalate` for the role `system`
  abbrev pub escalate_system : String → String → World → Outcome Unit
  escalate_system key reason w =
      stored w (escalate o.now key "system" reason (o.post_comment key reason) false w.store)

  abbrev pub escalate_done : {A : Type 0} → String → String → Incoming → World → Outcome A
  escalate_done key reason e w = escalate_system key reason w ▷ λ u w'. end_with done e w'

-- n for the key, in a dictionary of counters
abbrev pub count_at : String → ℕ → (String → ℕ) → String → ℕ
count_at key n counts k = if str_eq k key then n else counts k

abbrev pub one_of : List String → String → Bool
one_of names s = any (str_eq s) names

-- f"{repo}#{int(issue_num)}"
abbrev pub session_key_of : String → ℤ → String
session_key_of repo n = repo +++ "#" +++ decimal_ℤ n

abbrev pub role_text : Role → String
role_text architect = "architect"
role_text developer = "developer"

-- The events that nest a `pull_request`.
abbrev pub is_pull_event : String → Bool
is_pull_event event =
    one_of
      ("pull_request" ∷ "pull_request_review" ∷ "pull_request_review_comment"
        ∷ "pull_request_review_thread" ∷ [])
      event
