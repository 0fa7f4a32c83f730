-- ===== src/SessionLoop/Resuming.antt =====
-- `process_resuming_turns` and `resume_interrupted_turn` of agentd/src/agentd/session_loop.py: the turns
-- that the reconciler has marked are sent to their runner again.
-- The call of the runner is a parameter. Its progress only goes to the log; what it registers while it
-- runs is part of its answer. The file of the digest and the role's lock are not modelled.
use code_workflow.Prelude.{
  ℕ, ◌+◌, String, Option, none, some, List, [], ◌∷◌, Bool, true, false, ◌||◌, if◌then◌else◌, str_eq,
  ltb, leb, get_or,
}
use code_workflow.Prelude.Int.{ℤ}
use code_workflow.Prelude.Decimal.{parse_int}
use code_workflow.Prelude.Split.{◌+++◌, partition}
use code_workflow.Store.Rows.{Store, Runner, Turn}
use code_workflow.Store.Sessions.{SessionView, get_session}
use code_workflow.Store.Sessions.Fields.{Field, update_session_fields}
use code_workflow.Store.Turns.{TurnView, list_resuming_turns, clear_turn_resuming, finish_turn}
use code_workflow.Store.Runners.{get_runner}
use code_workflow.Store.Artifacts.{
  non_empty, Registered, row_id, value_error, integrity_error, register_artifact,
}
use code_workflow.SessionLoop.{Posted, clip, escalate}
use code_workflow.SessionLoop.Process.{World, put, count_at}
use code_workflow.Reconciler.OpenTurns.{is_not_running}

-- An artifact of a turn's answer; an absent kind is empty.
pub record Claimed : Type 0 where
  pub kind : String
  pub ref : String

-- What `turn.resume` comes to: an exception before the call was made, one after it, which may be a
-- timeout, or an answer.
pub data Resumed : Type 0 where
  not_called : Resumed
  call_failed : Bool → Resumed
  answered : String → String → List Claimed → Resumed

pub record Calls : Type 0 where
  pub now : ℕ
  pub turn_deadline_s : ℕ
  -- of the turn, the host, the port and the bearer
  pub turn_resume : Turn → String → ℤ → String → Resumed
  -- of a session's key and the reason
  pub post_comment : String → String → Posted

-- `resume_interrupted_turn` has returned, or it has raised an exception.
pub data Attempt : Type 0 where
  resumed : Bool → World → Attempt
  failed : World → Attempt

-- _role_key(project_key, role)
abbrev pub role_key : String → String → String
role_key project_key role = project_key +++ "::" +++ role

-- What is read of the turn's session, or of an empty dictionary.
abbrev pub repo_of : Option SessionView → String
repo_of none = ""
repo_of (some v) = v.session.repo

abbrev pub project_of : Option SessionView → String
project_of none = ""
project_of (some v) =
    if str_eq v.session.project_key "" then v.session.repo else v.session.project_key

abbrev pub is_uncounted : String → Bool
is_uncounted status =
    str_eq status "gateway_timeout" || str_eq status "quota_exhausted" || str_eq status "role_busy"

abbrev turns_of : Option SessionView → ℕ × ℕ
turns_of none = (0, 0)
turns_of (some v) = (v.session.turn_count, v.session.consec_agent_turns)

module _ (x : Calls) where
  abbrev then_register : Store × Registered → (Store → Store × Bool) → Store × Bool
  then_register (s, row_id n) rest = rest s
  then_register (s, value_error) rest = (s, false)
  then_register (s, integrity_error) rest = (s, false)

  -- The artifacts with a ref, up to the first for which `register_artifact` raises an exception.
  unfoldable pub register_claimed : String → String → List Claimed → Store → Store × Bool
  unfolding register_artifact
  register_claimed key role [] s = (s, true)
  register_claimed key role (a ∷ rest) s =
      let registered = register_artifact x.now key role (non_empty a.kind "scratch") a.ref none s in
      let others = register_claimed key role rest in
      if str_eq a.ref "" then others s else then_register registered others

  abbrev pub count_turn : String → Store → Store
  count_turn key s =
      let n = turns_of (get_session key s) in
      get_or s (
        update_session_fields x.now key
          (Field.turn_count (n.0 + 1) ∷ Field.consec_agent_turns (n.1 + 1) ∷ []) s)

  abbrev end_listed : String → String → World → Store × Bool → Attempt
  end_listed key status w (s, false) = failed (put s w)
  end_listed key status w (s, true) =
      resumed true (put (if is_uncounted status then s else count_turn key s) w)

  -- The writes for an answer.
  unfoldable pub end_resumed : Turn → String → String → List Claimed → World → Attempt
  unfolding finish_turn register_claimed get_session update_session_fields
  end_resumed t status summary claimed w =
      let ended =
        finish_turn t.turn_id x.now (non_empty status "done") (some (clip 2000 summary)) none
          w.store in
      end_listed t.session_key (non_empty status "done") w
        (register_claimed t.session_key t.role claimed ended)

  -- A call that timed out keeps the role busy until the turn's deadline.
  unfoldable pub after_call : Turn → String → World → Resumed → Attempt
  unfolding end_resumed
  after_call t key w not_called = failed w
  after_call t key w (call_failed timed_out) = failed (
      if timed_out
      then record w { role_busy_until = count_at key (x.now + x.turn_deadline_s) w.role_busy_until }
      else w)
  after_call t key w (answered status summary claimed) = end_resumed t status summary claimed w

  unfoldable pub call_port : Turn → String → String → String → World → Option ℤ → Attempt
  unfolding after_call
  call_port t key host token w none = failed w
  call_port t key host token w (some port) = after_call t key w (x.turn_resume t host port token)

  -- host, _, port = endpoint.partition(":"), and int(port); a NULL reads as the text `None`
  unfoldable pub call_runner : Turn → String → World → Option Runner → Attempt
  unfolding call_port partition parse_int
  call_runner t key w none = failed w
  call_runner t key w (some r) =
      let parts = partition ":" (get_or "None" r.endpoint) in
      call_port t key parts.0 (get_or "None" r.token) w (parse_int parts.1.1)

  unfoldable pub resume_interrupted_turn : Turn → World → Attempt
  unfolding call_runner get_session get_runner
  resume_interrupted_turn t w =
      let project = project_of (get_session t.session_key w.store) in
      let key = role_key project t.role in
      if ltb x.now (w.role_busy_until key)
      then resumed false w
      else call_runner t key w (get_runner project w.store)

  abbrev pub escalated : Turn → Store → Store
  escalated t s =
      let reason = "interrupted turn " +++ t.turn_id +++ " retired after failed resume" in
      get_or s (
        escalate x.now t.session_key (non_empty t.role "developer") reason
          (x.post_comment t.session_key reason) false s)

  -- After an exception: the second attempt ends the turn, the first leaves it to the reconciler.
  unfoldable pub resume_failed : Turn → Store → Store
  unfolding finish_turn clear_turn_resuming escalate
  resume_failed t s =
      let ended = finish_turn t.turn_id x.now "interrupted" (some "resume failed twice") none s in
      if leb 2 t.resume_attempts
      then (if str_eq t.session_key "" then ended else escalated t ended)
      else clear_turn_resuming t.turn_id s

  abbrev pub settle : Turn → Attempt → World × ℕ
  settle t (resumed true w) = (w, 1)
  settle t (resumed false w) = (w, 0)
  settle t (failed w) = (put (resume_failed t w.store) w, 0)

  unfoldable pub process_resuming_turn : TurnView → World → World × ℕ
  unfolding resume_interrupted_turn resume_failed clear_turn_resuming
  process_resuming_turn v w =
      if is_not_running v.session_state
      then (put (clear_turn_resuming v.turn.turn_id w.store) w, 0)
      else settle v.turn (resume_interrupted_turn v.turn w)

  abbrev add_to : ℕ → World × ℕ → World × ℕ
  add_to n (w, m) = (w, n + m)

  unfoldable pub process_turns : List TurnView → World → World × ℕ
  unfolding process_resuming_turn
  process_turns [] w = (w, 0)
  process_turns (v ∷ vs) w =
      let one = process_resuming_turn v w in add_to one.1 (process_turns vs one.0)

  unfoldable pub process_resuming_turns : World → World × ℕ
  unfolding process_turns list_resuming_turns
  process_resuming_turns w = process_turns (list_resuming_turns w.store) w
