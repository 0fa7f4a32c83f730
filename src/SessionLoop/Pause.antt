-- ===== src/SessionLoop/Pause.antt =====
-- Escalations of session_loop.py and the owner's reply to them.
use code_workflow.Prelude.{
  ℕ, String, ◌≡◌, ◌≢◌, refl, Option, none, some, [], ◌∷◌, Bool, false, str_eq, arith, Bool-cases,
  inl, inr,
}
use code_workflow.Prelude.Tables.{update_where}
use code_workflow.Fsm.{SessionState, paused_human, closed, is_terminal}
use code_workflow.Store.Rows.{Store, Session}
use code_workflow.Store.Deliveries.{clear_deferred_clocks}
use code_workflow.Store.Sessions.{has_key, get_session}
use code_workflow.Store.Sessions.Fields.{Field, stamped}
use code_workflow.Store.Sessions.Writes.{find}
use code_workflow.Store.Sessions.Updates.{found_key, update_session_fields_found}
use code_workflow.Store.Escalations.{open_escalation, close_escalation, get_open_escalation}
use code_workflow.Store.Escalations.Open.{open-close_escalation}
use code_workflow.Store.Blocks.{close_project_block}
use code_workflow.SessionLoop.{
  Posted, posted_reason, posted_id, prev_state, pause_fields, escalate, resume_target,
  resume_fields, project_of, unblock, resume_from_escalation,
}

-- The arguments of one call of `_escalate`, its clock and the outcome of its comment.
pub record Escalating : Type 0 where
  pub now : ℕ
  pub role : String
  pub reason : String
  pub posted : Posted
  pub hold : Bool

abbrev pub paused_row : Escalating → Session → Session
paused_row e x =
    stamped e.now (pause_fields (posted_reason e.reason e.posted) e.hold (prev_state x)) x

abbrev pub escalate_by : String → Escalating → Store → Option Store
escalate_by key e s = escalate e.now key e.role e.reason e.posted e.hold s

is_closed_of :
    (x : Session) → x.state ≢ closed → code_workflow.SessionLoop.is_closed x.state ≡ false
is_closed_of x h = ground arith

pub escalate_found :
    (key : String) (e : Escalating) (s : Store) {x : Session}
    → find key s ≡ some x
    → x.state ≢ closed
    → (s' : Store) × (escalate_by key e s ≡ some s') × (find key s' ≡ some (paused_row e x))
unfolding escalate get_session open_escalation
escalate_found key e s {x} h live =
    let s1 =
      (open_escalation e.now key (some e.role) (posted_reason e.reason e.posted)
        (posted_id e.posted) s).0 in
    let (written, row) = update_session_fields_found e.now key _ _ s1 h refl in
    let fs = pause_fields (posted_reason e.reason e.posted) e.hold (prev_state x) in
    let s2 = record s1 { sessions = update_where (has_key key) (stamped e.now fs) s1.sessions } in
    (s2, rw (h, is_closed_of x live) written, row)

-- A CLOSED session is left as it is.
pub escalate_closed :
    (key : String) (e : Escalating) (s : Store) {x : Session}
    → find key s ≡ some x
    → x.state ≡ closed
    → escalate_by key e s ≡ some s
unfolding escalate get_session
escalate_closed key e s h c = rw (h, c) refl

unblock_same :
    (now : ℕ) (project_key : String) (s : Store)
    → ((unblock now project_key s).sessions ≡ s.sessions)
      × ((unblock now project_key s).escalations ≡ s.escalations)
unfolding close_project_block
unblock_same now project_key s = elim (Bool-cases (str_eq project_key "")) [
  | inl e ↦ rw e (refl, refl)
  | inr e ↦ rw e (refl, refl)
]

-- What the owner's reply leaves of a session that was paused in state `from`.
abbrev pub IsResumed : SessionState → String → Store → Type 0
IsResumed from key s =
    ((y : Session) × (find key s ≡ some y)
      × (y.state ≡ from)
      × (y.paused_reason ≡ none)
      × (y.resume_state ≡ none)
      × (y.consec_agent_turns ≡ 0)
      × (y.silent_turns ≡ 0))
    × (get_open_escalation key s ≡ none)

pub resume_row :
    (now : ℕ) (key delivery : String) (q : Store) (p : Session)
    → find key q ≡ some p
    → p.state ≡ paused_human
    → (r : Store) × (resume_from_escalation now p delivery q ≡ some r)
      × (find key r ≡ some (stamped now (resume_fields (resume_target p)) p))
      × (get_open_escalation key r ≡ none)
unfolding resume_from_escalation is_terminal clear_deferred_clocks close_escalation
    close_project_block get_open_escalation
resume_row now key delivery q p at_q paused =
    let named = found_key key q at_q in
    let freed = clear_deferred_clocks (close_escalation now key none none q).0 in
    let s2 = unblock now (project_of p) freed in
    let same = unblock_same now (project_of p) freed in
    let fs = resume_fields (resume_target p) in
    let (resumed, row) =
      update_session_fields_found now key (Field.state (resume_target p))
        (Field.paused_reason none
          ∷ Field.resume_state none
          ∷ Field.consec_agent_turns 0
          ∷ Field.silent_turns 0
          ∷ [])
        s2 {x = p} (rw same.0 at_q) refl in
    let r = record s2 { sessions = update_where (has_key key) (stamped now fs) s2.sessions } in
    let closed_all = open-close_escalation now now key none "" none none q in
    (r, rw (paused, named) resumed, row, rw same.1 closed_all.2)

pub resume_lem :
    (now : ℕ) (key delivery : String) (from : SessionState) (q : Store) (p : Session)
    → find key q ≡ some p
    → p.state ≡ paused_human
    → p.resume_state ≡ some from
    → from ≢ paused_human
    → (r : Store) × (resume_from_escalation now p delivery q ≡ some r) × IsResumed from key r
resume_lem now key delivery from q p at_q paused back ne =
    let target : resume_target p ≡ from = rw back (ground arith) in
    let (r, resumed, row, closed_all) = resume_row now key delivery q p at_q paused in
    (
      r,
      resumed,
      (
        (stamped now (resume_fields (resume_target p)) p, row, target, refl, refl, refl, refl),
        closed_all,
      ),
    )
