-- ===== src/SessionLoop/Unarmed.antt =====
-- The fingerprint signal of session_loop.py as it is wired to the store.
use code_workflow.Prelude.{
  ℕ, ◌+◌, ◌==◌, leb, is_some, ◌≡◌, refl, String, Option, none, some, [], Bool, true, false, ◌&&◌,
  arith, if◌then◌else◌, get_or, Bool-cases, inl, inr,
}
use code_workflow.Fsm.{EventKind}
use code_workflow.LoopSafety.{
  StallTracker, StallSignal, zero_thread, observe_fingerprint, observe_review_round,
}
use code_workflow.Store.Rows.{Session}
use code_workflow.SessionLoop.StallSignals.{
  Snapshot, Sources, loaded_tracker, fingerprint_step, diff_stat, after_fingerprint,
  threads_resolved, review_step, conclude, is_rework, Observed, stalled, goes_on,
  observe_stall_signals,
}

-- Without a last head there is no signal, and the counters of the review rounds stay.
step_unarmed :
    (sources : Sources) (head : Option String) (t : StallTracker) (snap : Option Snapshot)
    (diff : Option String)
    → t.last_head ≡ none
    → ((fingerprint_step sources head t snap diff).1 ≡ none)
      × ((fingerprint_step sources head t snap diff).0.zero_thread_rounds ≡ t.zero_thread_rounds)
      × ((fingerprint_step sources head t snap diff).0.zero_thread_threshold
          ≡ t.zero_thread_threshold)
unfolding observe_fingerprint
step_unarmed sources head t none diff h = (refl, refl, refl)
step_unarmed sources head t (some snap) none h = (refl, refl, refl)
step_unarmed sources none t (some snap) (some d) h = rw h (refl, ground arith, ground arith)
step_unarmed sources (some sha) t (some snap) (some d) h = rw h (refl, refl, refl)

abbrev pub stall_signal : Observed → Option StallSignal
stall_signal (stalled reason) = some reason
stall_signal (goes_on fields) = none

review_signal :
    (sources : Sources) (kind : EventKind) (sess : Session) (observed : Bool) (resolved : ℕ)
    (u : StallTracker × Option StallSignal)
    → u.1 ≡ none
    → u.0.zero_thread_threshold ≡ 3
    → stall_signal (conclude kind sources sess (review_step kind observed resolved u)) ≡ (
        if is_rework kind && observed && (resolved == 0) && leb 2 u.0.zero_thread_rounds
        then some (zero_thread (u.0.zero_thread_rounds + 1))
        else none)
unfolding observe_review_round
review_signal sources kind sess observed resolved (t, some r) h k = cc h
review_signal sources kind sess observed resolved (t, none) h k =
    elim (Bool-cases (is_rework kind)) [
      | inr e ↦ rw e refl
      | inl e ↦ elim (Bool-cases observed) [
        | inr f ↦ rw (e, f) refl
        | inl f ↦ elim (Bool-cases (resolved == 0)) [
          | inr g ↦ let more : leb resolved 0 ≡ false = ground arith in rw (e, f, g, more, k) refl
          | inl g ↦
              let least : leb resolved 0 ≡ true = ground arith in
              elim (Bool-cases (leb 2 t.zero_thread_rounds)) [
                | inl m ↦
                    let n : leb 3 (t.zero_thread_rounds + 1) ≡ true = ground arith in
                    rw (e, f, g, least, k, m, n) refl
                | inr m ↦
                    let n : leb 3 (t.zero_thread_rounds + 1) ≡ false = ground arith in
                    rw (e, f, g, least, k, m, n) refl
              ]
        ]
      ]
    ]

-- The one stall that the session loop signals is that of review rounds: on changes requested, with
-- the threads observed, none of them resolved since, in the third such round in a row or a later
-- one. The fingerprint signal is never given, whatever the row, the head, the threads and the
-- diff: the tracker is loaded without its last head.
pub observe_stall_signals_lem :
    (sources : Sources) (head : Option String) (kind : EventKind) (sess : Session)
    → stall_signal (observe_stall_signals sources head kind sess) ≡ (
        if is_rework kind
          && is_some sources.threads
          && (threads_resolved sources.threads (get_or [] sess.stall_open_threads) == 0)
          && leb 2 sess.zero_thread_rounds
        then some (zero_thread (sess.zero_thread_rounds + 1))
        else none)
unfolding observe_stall_signals after_fingerprint loaded_tracker
observe_stall_signals_lem sources head kind sess =
    let t = loaded_tracker sess in
    let (quiet, rounds, threshold) =
      step_unarmed sources head t sources.threads (diff_stat sources head) refl in
    let signal =
      review_signal sources kind sess (is_some sources.threads)
        (threads_resolved sources.threads (get_or [] sess.stall_open_threads))
        (after_fingerprint sources head sess) quiet threshold in
    rw rounds at signal
