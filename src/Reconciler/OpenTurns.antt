-- ===== src/Reconciler/OpenTurns.antt =====
-- `_handle_open_turns`, `_apply_open_turn` and `_retire_turn` of agentd/src/agentd/reconciler.py.
-- The notice of a retired turn is only logged.
use code_workflow.Prelude.{
  ℕ, ◌+◌, ◌-◌, String, Option, none, some, List, [], ◌∷◌, Bool, true, false, not, ◌&&◌, ◌||◌, ◌==◌,
  if◌then◌else◌, str_eq, leb, get_or,
}
use code_workflow.Prelude.Split.{◌+++◌}
use code_workflow.Prelude.Decimal.{decimal}
use code_workflow.Fsm.{SessionState, paused_human, teardown, closed}
use code_workflow.Store.Rows.{Store, Turn}
use code_workflow.Store.Turns.{
  TurnView, is_resuming, finish_turn, mark_turn_resuming, list_open_turns,
}
use code_workflow.SessionLoop.{Posted, clip, escalate}
use code_workflow.SessionLoop.Process.Merges.{state_text}
use code_workflow.Reconciler.{resume_max_attempts, Report, Seams}

-- str(turn.get("session_state") or "")
abbrev pub state_or_empty : Option SessionState → String
state_or_empty none = ""
state_or_empty (some st) = state_text st

-- state in NON_RUNNING_STATES or not state
abbrev pub is_not_running : Option SessionState → Bool
is_not_running none = true
is_not_running (some paused_human) = true
is_not_running (some teardown) = true
is_not_running (some closed) = true
is_not_running (some (SessionState.other s)) =
    str_eq s "PAUSED_HUMAN" || str_eq s "TEARDOWN" || str_eq s "CLOSED" || str_eq s ""
is_not_running (some _) = false

-- A turn with no start is older than any.
abbrev pub turn_age : Seams → Turn → ℕ
turn_age x t = if t.started_at == 0 then x.resume_max_age_s + 1 else x.now - t.started_at

-- age >= self.resume_max_age_s, where the age may be below 0
abbrev pub is_too_old : Seams → Turn → Bool
is_too_old x t = t.started_at == 0 || leb (x.resume_max_age_s + t.started_at) x.now

abbrev pub or_unknown : String → String
or_unknown s = if str_eq s "" then "unknown" else s

unfoldable pub retire_reason : Seams → TurnView → String
unfolding decimal
retire_reason x v =
    if is_not_running v.session_state
    then "session " +++ or_unknown (state_or_empty v.session_state) +++ " is not running"
    else "age "
      +++ decimal (turn_age x v.turn)
      +++ "s >= resume_max_age_s "
      +++ decimal x.resume_max_age_s

-- `self.escalate`, which hands the call on to `_escalate` of the session loop for the role `system`.
-- An exception leaves the store, and there is none: the fields that it writes are allowed.
abbrev pub escalate_by :
    Seams → Option (String → String → Posted) → String → String → Bool → Store → Store
escalate_by x none key reason hold s = s
escalate_by x (some post) key reason hold s =
    get_or s (escalate x.now key "system" reason (post key reason) hold s)

abbrev pub escalate_with : Seams → String → String → Bool → Store → Store
escalate_with x key reason hold s = escalate_by x x.post_comment key reason hold s

unfoldable pub retire_turn : Seams → Turn → String → Bool → Store → Store
unfolding finish_turn escalate
retire_turn x t reason escalates s =
    let s' = finish_turn t.turn_id x.now "interrupted" (some (clip 500 reason)) none s in
    if escalates && not (str_eq t.session_key "")
    then escalate_with x t.session_key
        ("interrupted turn " +++ t.turn_id +++ " retired after failed resume: " +++ reason) false s'
    else s'

abbrev pub count_retired : Report → Report
count_retired r = record r { retired = r.retired + 1 }

abbrev pub count_resumed : Report → Report
count_resumed r = record r { resumed = r.resumed + 1 }

abbrev retire : Seams → Bool → Turn → String → Bool → Report × Store → Report × Store
retire x dry_run t reason escalates (r, s) =
    (count_retired r, (if dry_run then s else retire_turn x t reason escalates s))

abbrev resume : Bool → Turn → Report × Store → Report × Store
resume dry_run t (r, s) =
    (count_resumed r, (if dry_run then s else (mark_turn_resuming t.turn_id s).0))

-- The turn is retired with no escalation: its session does not run, or it is too old.
abbrev pub is_lost : Seams → TurnView → Bool
is_lost x v = is_not_running v.session_state || is_too_old x v.turn

unfoldable pub apply_open_turn : Seams → Bool → TurnView → Report × Store → Report × Store
unfolding retire_turn retire_reason mark_turn_resuming
apply_open_turn x dry_run v rs =
    if x.inflight_turn v.turn.turn_id
    then rs
    else if is_lost x v
    then retire x dry_run v.turn (retire_reason x v) false rs
    else if is_resuming v.turn.status
    then rs
    else if leb resume_max_attempts v.turn.resume_attempts
    then retire x dry_run v.turn "resume failed twice" true rs
    else resume dry_run v.turn rs

unfoldable pub apply_open_turns : Seams → Bool → List TurnView → Report × Store → Report × Store
unfolding apply_open_turn
apply_open_turns x dry_run [] rs = rs
apply_open_turns x dry_run (v ∷ vs) rs =
    apply_open_turns x dry_run vs
      (if str_eq v.turn.turn_id "" then rs else apply_open_turn x dry_run v rs)

abbrev list_again : Report × Store → Report × Store
list_again (r, s) = (record r { open_turns = list_open_turns s }, s)

unfoldable pub handle_open_turns : Seams → Bool → Report × Store → Report × Store
unfolding apply_open_turns list_open_turns
handle_open_turns x dry_run (r, s) =
    list_again (apply_open_turns x dry_run (list_open_turns s) (r, s))
