-- ===== src/SessionLoop/StallSignals.antt =====
-- `_observe_stall_signals` of agentd/src/agentd/session_loop.py, and the fingerprint it takes.
-- SHA-256, the threads' snapshot and the diff of a head are parameters. The cache of diffs is left out:
-- `diff` is what the cache or the fetch gives. `stall_open_threads` is a set of ids, its JSON text
-- being sorted; the list of the model keeps the order of the snapshot.
use Prim.Native.String.{◌++◌ as append}
use code_workflow.Prelude.{
  ℕ, ◌+◌, String, Option, none, some, List, [], ◌∷◌, ◌++◌, Bool, true, false, not, ◌&&◌,
  if◌then◌else◌, str_eq, any, get_or, starts_with, is_some, length,
}
use code_workflow.Prelude.Tables.{count_where}
use code_workflow.Fsm.{EventKind, design_changes_requested}
use code_workflow.LoopSafety.{
  StallTracker, new_stall, StallSignal, observe_fingerprint, observe_review_round,
}
use code_workflow.Store.Rows.{Session}
use code_workflow.Store.Sessions.Fields.{Field}

pub record Snapshot : Type 0 where
  pub base_ref : Option String
  pub head_oid : Option String
  pub open_thread_ids : List String

pub record Sources : Type 0 where
  pub threads : Option Snapshot
  -- of a base and a head
  pub diff : String → String → Option String
  -- `progress_fingerprint`: of the open ids, their number and the diff
  pub fingerprint : List String → ℕ → String → String

abbrev drop_two : String → String
drop_two (String.◌∷◌ a (String.◌∷◌ b s)) = s
drop_two _ = ""

abbrev or_none : String → Option String
or_none s = if str_eq s "" then none else some s

-- `_observe_stall_signals` builds its tracker from the row.
unfoldable pub loaded_tracker : Session → StallTracker
loaded_tracker sess =
    let raw_fp = get_or "" sess.progress_fp in
    let armed = starts_with raw_fp "A:" in
    record new_stall {
      last_fp = or_none (if armed then drop_two raw_fp else raw_fp);
      fp_repeat = sess.progress_repeat;
      zero_thread_rounds = sess.zero_thread_rounds;
      seen_head_change = armed;
    }

abbrev open_ids : Option Snapshot → List String
open_ids none = []
open_ids (some snap) = snap.open_thread_ids

abbrev is_in : List String → String → Bool
is_in ids n = any (str_eq n) ids

abbrev distinct : List String → List String
distinct [] = []
distinct (n ∷ ns) = let rest = distinct ns in if is_in ns n then rest else n ∷ rest

-- len(prior_ids - current_ids), 0 without a snapshot or a prior set
abbrev pub threads_resolved : Option Snapshot → List String → ℕ
threads_resolved none prior = 0
threads_resolved (some snap) prior =
    count_where (λ n. not (is_in snap.open_thread_ids n)) (distinct prior)

abbrev base_of : Option Snapshot → String
base_of none = "main"
base_of (some snap) = get_or "main" snap.base_ref

abbrev head_of : Option String → Option Snapshot → String
head_of head none = get_or "" head
head_of head (some snap) = get_or (get_or "" snap.head_oid) head

abbrev pub diff_stat : Sources → Option String → Option String
diff_stat sources head =
    let h = head_of head sources.threads in
    if str_eq h "" then none else sources.diff (base_of sources.threads) h

-- The tracker and the signal after the fingerprint, which needs a snapshot and a diff.
abbrev pub fingerprint_step :
    Sources
    → Option String
    → StallTracker
    → Option Snapshot
    → Option String
    → StallTracker × Option StallSignal
fingerprint_step sources head stall none diff = (stall, none)
fingerprint_step sources head stall (some snap) none = (stall, none)
fingerprint_step sources head stall (some snap) (some d) =
    observe_fingerprint stall
      (sources.fingerprint snap.open_thread_ids (length snap.open_thread_ids) d) head

unfoldable pub after_fingerprint :
    Sources → Option String → Session → StallTracker × Option StallSignal
unfolding loaded_tracker observe_fingerprint
after_fingerprint sources head sess =
    fingerprint_step sources head (loaded_tracker sess) sources.threads (diff_stat sources head)

abbrev pub is_rework : EventKind → Bool
is_rework design_changes_requested = true
is_rework _ = false

-- The zero-thread signal, unless there is one: on changes requested, with a snapshot.
abbrev pub review_step :
    EventKind → Bool → ℕ → StallTracker × Option StallSignal → StallTracker × Option StallSignal
review_step kind observed resolved (stall, some reason) = (stall, some reason)
review_step kind observed resolved (stall, none) =
    if is_rework kind && observed then observe_review_round stall resolved else (stall, none)

abbrev stored_fp : StallTracker → String
stored_fp stall =
    if stall.seen_head_change
    then append "A:" (get_or "None" stall.last_fp)
    else get_or "" stall.last_fp

abbrev pub threads_field : Option Snapshot → List Field
threads_field none = []
threads_field (some snap) = Field.stall_open_threads (some (distinct snap.open_thread_ids)) ∷ []

abbrev pub rounds_field : EventKind → Session → List Field
rounds_field kind sess =
    if is_rework kind then Field.review_rounds (sess.review_rounds + 1) ∷ [] else []

-- A signal, for which the session is escalated and the delivery done; or the fields to write.
pub data Observed : Type 0 where
  stalled : StallSignal → Observed
  goes_on : List Field → Observed

abbrev pub conclude : EventKind → Sources → Session → StallTracker × Option StallSignal → Observed
conclude kind sources sess (stall, some reason) = stalled reason
conclude kind sources sess (stall, none) = goes_on (
    Field.progress_fp (some (stored_fp stall))
    ∷ Field.progress_repeat stall.fp_repeat
    ∷ Field.zero_thread_rounds stall.zero_thread_rounds
    ∷ (threads_field sources.threads ++ rounds_field kind sess))

unfoldable pub observe_stall_signals : Sources → Option String → EventKind → Session → Observed
unfolding after_fingerprint observe_review_round
observe_stall_signals sources head kind sess = conclude kind sources sess (
    review_step kind (is_some sources.threads)
      (threads_resolved sources.threads (get_or [] sess.stall_open_threads))
      (after_fingerprint sources head sess))
