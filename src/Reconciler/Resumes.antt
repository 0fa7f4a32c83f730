-- ===== src/Reconciler/Resumes.antt =====
-- A turn whose resume keeps failing, between agentd/src/agentd/reconciler.py, which marks it, and
-- `process_resuming_turns` of agentd/src/agentd/session_loop.py, which sends it again.
use code_workflow.Prelude.{
  ◌+◌, String, ◌≡◌, refl, ap, ◌∙◌, Option, none, some, true, false, ◌&&◌, arith, leb, if◌then◌else◌,
}
use code_workflow.Prelude.Split.{◌+++◌}
use code_workflow.Fsm.{SessionState}
use code_workflow.Store.Rows.{Store, Turn}
use code_workflow.Store.Artifacts.{non_empty}
use code_workflow.Prelude.Tables.{first_where}
use code_workflow.Store.Turns.{
  has_turn, TurnView, is_open_turn, is_resuming, resuming, finished, get_turn, finish_turn,
  mark_turn_resuming, clear_turn_resuming,
}
use code_workflow.Store.Turns.Lifecycle.{
  first_has_turn, get_turn-finish_turn, get_turn-clear_turn_resuming, marked_open,
}
use code_workflow.SessionLoop.Resuming.{Calls, resume_failed}
use code_workflow.Reconciler.{Report, Seams}
use code_workflow.Reconciler.Kept.{escalate-Kept}
use code_workflow.Reconciler.OpenTurns.{is_lost, apply_open_turn}

abbrev seen : Option SessionState → Turn → TurnView
seen st t = record { turn = t; session_state = st }

module _ (c : Calls) where
  failed_early :
      (t : Turn) (s : Store)
      → leb 2 t.resume_attempts ≡ false
      → resume_failed c t s ≡ clear_turn_resuming t.turn_id s
  unfolding resume_failed
  failed_early t s few = rw few refl

  -- The last failure ends the turn; the escalation leaves the turns as they are.
  failed_late :
      (t : Turn) (s : Store)
      → leb 2 t.resume_attempts ≡ true
      → (resume_failed c t s).turns
        ≡ (finish_turn t.turn_id c.now "interrupted" (some "resume failed twice") none s).turns
  unfolding resume_failed
  failed_late t s many =
      let ended = finish_turn t.turn_id c.now "interrupted" (some "resume failed twice") none s in
      let reason = "interrupted turn " +++ t.turn_id +++ " retired after failed resume" in
      let told =
        escalate-Kept c.now t.session_key (non_empty t.role "developer") reason
          (c.post_comment t.session_key reason) false ended in
      ground (arith, many, told.turns)

get_turn_by : (id : String) (a b : Store) → a.turns ≡ b.turns → get_turn id a ≡ get_turn id b
unfolding get_turn
get_turn_by id a b same = ap (first_where (has_turn id)) same

module _ (x : Seams) (c : Calls) (st : Option SessionState) (r : Report) where
  -- The drain takes up the turn if it was marked, and the runner cannot be asked.
  abbrev drained : Option Turn → Store → Store
  drained none s = s
  drained (some u) s = if is_resuming u.status then resume_failed c u s else s

  abbrev reconciled : Turn → Store → Store
  reconciled t s = (apply_open_turn x false (seen st t) (r, s)).1

  abbrev failed_once : String → Option Turn → Store → Store
  failed_once id none s = s
  failed_once id (some t) s = let s' = reconciled t s in drained (get_turn id s') s'

  -- One pass of the reconciler over a turn, and one resume of it that raises an exception.
  abbrev pub fail_once : String → Store → Store
  fail_once id s = failed_once id (get_turn id s) s

  module _ (t : Turn) (s : Store) (found : get_turn t.turn_id s ≡ some t) (live : t.ended_at ≡ none)
      (idle : x.inflight_turn t.turn_id ≡ false) (runs : is_lost x (seen st t) ≡ false)
      (unmarked : is_resuming t.status ≡ false) (few : leb 2 t.resume_attempts ≡ false) where
    reconciled_marks : reconciled t s ≡ (mark_turn_resuming t.turn_id s).0
    unfolding apply_open_turn
    reconciled_marks = ground arith

    marked : get_turn t.turn_id (mark_turn_resuming t.turn_id s).0 ≡ some (resuming t)
    marked =
        let live' : is_open_turn t.turn_id t ≡ true =
          ground (arith, first_has_turn t.turn_id s found) in
        (marked_open t.turn_id s found live').0

    failed_marked :
        fail_once t.turn_id s ≡ resume_failed c (resuming t) (mark_turn_resuming t.turn_id s).0
    failed_marked =
        ap (λ o. failed_once t.turn_id o s) found
        ∙ ap (λ s'. drained (get_turn t.turn_id s') s') reconciled_marks
        ∙ ap (λ o. drained o (mark_turn_resuming t.turn_id s).0) marked

    abbrev cleared : Turn
    cleared = record t { status = none; resume_attempts = t.resume_attempts + 1 }

    first_failure :
        t.resume_attempts ≡ 0 → get_turn t.turn_id (fail_once t.turn_id s) ≡ some cleared
    first_failure fresh =
        let live' : (is_open_turn t.turn_id (resuming t) && is_resuming (resuming t).status)
            ≡ true =
          ground (arith, first_has_turn t.turn_id s found) in
        let kept : resume_failed c (resuming t) (mark_turn_resuming t.turn_id s).0
            ≡ clear_turn_resuming t.turn_id (mark_turn_resuming t.turn_id s).0 =
          failed_early c (resuming t) (mark_turn_resuming t.turn_id s).0 (ground arith) in
        ap (get_turn t.turn_id) (failed_marked ∙ kept)
        ∙ get_turn-clear_turn_resuming t.turn_id (mark_turn_resuming t.turn_id s).0 marked
        ∙ rw live' refl

    abbrev ended : Turn
    ended = finished c.now "interrupted" (some "resume failed twice") none (resuming t)

    second_failure : t.resume_attempts ≡ 1 → get_turn t.turn_id (fail_once t.turn_id s) ≡ some ended
    second_failure once =
        let live' : is_open_turn t.turn_id (resuming t) ≡ true =
          ground (arith, first_has_turn t.turn_id s found) in
        let s' = (mark_turn_resuming t.turn_id s).0 in
        ap (get_turn t.turn_id) failed_marked
        ∙ get_turn_by t.turn_id (resume_failed c (resuming t) s')
            (finish_turn t.turn_id c.now "interrupted" (some "resume failed twice") none s')
            (failed_late c (resuming t) s' (ground arith))
        ∙ get_turn-finish_turn t.turn_id (mark_turn_resuming t.turn_id s).0 marked c.now
            "interrupted" (some "resume failed twice") none
        ∙ rw live' refl

  -- A turn of a running session, not too old, whose resume fails each time that it is marked: the
  -- first failure leaves it open and unmarked, with one attempt; the second ends it as interrupted.
  pub resume_gives_up :
      (t : Turn) (s : Store)
      → get_turn t.turn_id s ≡ some t
      → t.ended_at ≡ none
      → t.status ≡ none
      → t.resume_attempts ≡ 0
      → x.inflight_turn t.turn_id ≡ false
      → is_lost x (seen st t) ≡ false
      → ((u : Turn) × (get_turn t.turn_id (fail_once t.turn_id s) ≡ some u)
          × (u.ended_at ≡ none)
          × (u.status ≡ none)
          × (u.resume_attempts ≡ 1))
        × ((u : Turn) × (get_turn t.turn_id (fail_once t.turn_id (fail_once t.turn_id s)) ≡ some u)
            × (u.ended_at ≡ some c.now)
            × (u.status ≡ some "interrupted")
            × (u.resume_attempts ≡ 2))
  resume_gives_up t s found live blank fresh idle runs =
      let unmarked : is_resuming t.status ≡ false = rw blank refl in
      let once = first_failure t s found live idle runs unmarked (rw fresh refl) fresh in
      let u : Turn = cleared t s found live idle runs unmarked (rw fresh refl) in
      let twice =
        second_failure u (fail_once t.turn_id s) once live idle runs refl (rw fresh refl)
          (rw fresh refl) in
      ((u, once, live, refl, omega arith), (_, twice, refl, refl, omega arith))
