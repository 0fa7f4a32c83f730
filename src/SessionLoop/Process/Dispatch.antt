-- ===== src/SessionLoop/Process/Dispatch.antt =====
-- The last part of `_process_one` of agentd/src/agentd/session_loop.py: the turn, its retries and its
-- counters.
use code_workflow.Prelude.{
  ℕ, suc, String, Option, none, some, List, Bool, true, false, ◌&&◌, if◌then◌else◌, ltb, [], ◌∷◌,
}
use code_workflow.Prelude.Split.{◌+++◌}
use code_workflow.Prelude.Decimal.{decimal}
use code_workflow.LoopSafety.{
  PublicAction, SilentMode, keep, inc, SilentBreach, silent_turn_mode, breach_message,
}
use code_workflow.Store.Rows.{Store, routed}
use code_workflow.Store.Sessions.{TurnCounters, bump_turn_counters}
use code_workflow.SessionLoop.Process.{
  Incoming, World, Outcome, finished, raised, Outside, TurnRequest, Dispatched, no_turn,
  no_capacity, no_structure, dispatch_failed, ran, end_with, end_handled, escalate_done, count_at,
  one_of, put,
}

-- _DELIVERY_MAX_ATTEMPTS
abbrev pub delivery_max_attempts : ℕ
delivery_max_attempts = 5

abbrev pub set_attempts : Incoming → ℕ → World → World
set_attempts e n w = record w { delivery_attempts = count_at e.delivery_id n w.delivery_attempts }

abbrev pub is_status : Option String → List String → Bool
is_status none names = false
is_status (some s) names = one_of names s

abbrev pub is_keep : SilentMode → Bool
is_keep keep = true
is_keep _ = false

module _ (o : Outside) where
  -- `_retry_or_give_up`: the delivery stays deferred, until the last attempt escalates and ends it.
  abbrev pub retry_or_give_up : String → TurnRequest → World → Outcome Unit
  retry_or_give_up reason t w =
      let n = suc (w.delivery_attempts t.incoming.delivery_id) in
      if ltb n delivery_max_attempts
      then finished (set_attempts t.incoming n w)
      else escalate_done o t.session_key
          ("dispatch still failing after " +++ decimal n +++ " attempts: " +++ reason) t.incoming
          (set_attempts t.incoming 0 w)

  abbrev breach_of : SilentMode → TurnCounters → List PublicAction → Bool → Option SilentBreach
  breach_of inc counters actions window =
      breach_message
        (record { silent_count = counters.silent_turns; threshold = o.silent_turn_limit })
        (some actions) window
  breach_of _ counters actions window = none

  abbrev end_turn : TurnRequest → World → Option SilentBreach → Outcome Unit
  end_turn t w none = end_with routed t.incoming w
  end_turn t w (some b) = escalate_done o t.session_key (o.silent_text b) t.incoming w

  -- `none` is the KeyError of a session that is not stored.
  abbrev counted :
      TurnRequest
      → SilentMode
      → List PublicAction
      → Bool
      → World
      → Store × Option TurnCounters
      → Outcome Unit
  counted t mode actions window w (s, none) = raised (put s w)
  counted t mode actions window w (s, some counters) =
      end_turn t (put s w) (breach_of mode counters actions window)

  -- Progress is looked for only where it can move the counter.
  abbrev progress : TurnRequest → Option String → World → Bool × Bool
  progress t status w =
      if is_keep (silent_turn_mode false status) then (false, false) else o.observed_progress t w

  abbrev pub count_turn : TurnRequest → Option String → List PublicAction → World → Outcome Unit
  count_turn t status actions w =
      let seen = progress t status w in
      let mode = silent_turn_mode seen.0 status in
      counted t mode actions seen.1 w (bump_turn_counters o.now t.session_key mode false w.store)

  abbrev pub after_dispatch : TurnRequest → Dispatched → Outcome Unit
  after_dispatch t (no_turn w) = retry_or_give_up "no turn after ensure_session" t w
  after_dispatch t (no_capacity reason w) =
      retry_or_give_up ("ensure_session capacity: " +++ reason) t w
  after_dispatch t (no_structure reason w) =
      end_handled (o.structural_refusal t.session_key t.incoming reason w)
  after_dispatch t (dispatch_failed w) = raised w
  after_dispatch t (ran status actions w) =
      let w' = set_attempts t.incoming 0 w in
      if is_status status ("role_busy" ∷ "quota_exhausted" ∷ [])
      then finished w'
      else if is_status status ("gateway_timeout" ∷ [])
      then end_with routed t.incoming w'
      else count_turn t status actions w'

  unfoldable pub run_turn : TurnRequest → World → Outcome Unit
  unfolding silent_turn_mode breach_message bump_turn_counters
  run_turn t w =
      if o.dispatch_turns && o.has_supervisor
      then after_dispatch t (o.dispatch_turn t w)
      else end_with routed t.incoming w
