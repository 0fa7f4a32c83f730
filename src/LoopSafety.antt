-- ===== src/LoopSafety.antt =====
-- agentd/src/agentd/loop_safety.py: turn budgets and the stall signals.
-- A message of the source is a constructor that carries what the text shows.
pub mod Budget
pub mod Stall
use code_workflow.Prelude.{
  ℕ, ◌+◌, Bool, true, false, not, ◌&&◌, ◌||◌, Option, none, some, List, [], ◌∷◌, String, ltb, leb,
  if◌then◌else◌, str_eq, is_none, get_or,
}
use Prim.Native.Nat.{Ordering}
use Prim.Native.String.{compare}

pub record BudgetState : Type 0 where
  pub turn_count : ℕ
  pub consec_agent_turns : ℕ
  pub review_rounds : ℕ
  pub max_turns : ℕ
  pub max_consec_agent : ℕ
  pub max_review_rounds : ℕ

-- the defaults of the dataclass
abbrev pub new_budget : BudgetState
new_budget = record {
  turn_count = 0;
  consec_agent_turns = 0;
  review_rounds = 0;
  max_turns = 40;
  max_consec_agent = 30;
  max_review_rounds = 8;
}

unfoldable pub after_agent_turn : BudgetState → BudgetState
after_agent_turn b = record b {
  turn_count = b.turn_count + 1;
  consec_agent_turns = b.consec_agent_turns + 1;
}

unfoldable pub after_owner : BudgetState → BudgetState
after_owner b = record b { consec_agent_turns = 0 }

pub data Breach : Type 0 where
  turn_budget consec_turns rounds : ℕ → ℕ → Breach

unfoldable pub breach : BudgetState → Option Breach
breach b =
    if leb b.max_turns b.turn_count
    then some (turn_budget b.turn_count b.max_turns)
    else if leb b.max_consec_agent b.consec_agent_turns
    then some (consec_turns b.consec_agent_turns b.max_consec_agent)
    else if leb b.max_review_rounds b.review_rounds
    then some (rounds b.review_rounds b.max_review_rounds)
    else none

pub data SilentMode : Type 0 where
  keep reset inc : SilentMode

-- status in (None, "done", "changes_requested")
abbrev pub is_countable : Option String → Bool
is_countable none = true
is_countable (some s) = str_eq s "done" || str_eq s "changes_requested"

unfoldable pub silent_turn_mode : Bool → Option String → SilentMode
silent_turn_mode observed_progress status =
    if not (is_countable status) then keep else if observed_progress then reset else inc

-- An element of `public_actions`: not a dictionary, or one with its `kind`, if that is truthy.
pub data PublicAction : Type 0 where
  not_dict : PublicAction
  action : Option String → PublicAction

abbrev insert_kind : String → List String → List String
insert_kind k [] = k ∷ []
insert_kind k (j ∷ js) =
    let rest = insert_kind k js in
    elim (compare k j) [ Ordering.lt ↦ k ∷ j ∷ js | Ordering.eq ↦ j ∷ js | Ordering.gt ↦ j ∷ rest ]

-- sorted({str(a.get("kind") or "unknown") for a in claimed if isinstance(a, dict)})
kinds_of : List PublicAction → List String
kinds_of [] = []
kinds_of (not_dict ∷ rest) = kinds_of rest
kinds_of (action k ∷ rest) = insert_kind (get_or "unknown" k) (kinds_of rest)

-- The count, and for claimed actions their kinds and whether the turn's window was examined.
pub data SilentBreach : Type 0 where
  claimed_actions : ℕ → List String → Bool → SilentBreach
  no_actions : ℕ → SilentBreach

pub record SilentTurnTracker : Type 0 where
  pub silent_count : ℕ
  pub threshold : ℕ

silent_message : ℕ → Bool → List PublicAction → SilentBreach
silent_message n window_examined [] = no_actions n
silent_message n window_examined (a ∷ rest) =
    claimed_actions n (kinds_of (a ∷ rest)) window_examined

unfoldable pub breach_message :
    SilentTurnTracker → Option (List PublicAction) → Bool → Option SilentBreach
unfolding silent_message kinds_of
breach_message t public_actions window_examined =
    if ltb t.silent_count t.threshold
    then none
    else some (silent_message t.silent_count window_examined (get_or [] public_actions))

-- the body of `after_turn` once its mode is known
abbrev silent_turn :
    SilentTurnTracker
    → Option (List PublicAction)
    → Bool
    → SilentMode
    → SilentTurnTracker × Option SilentBreach
silent_turn t public_actions window_examined keep = (t, none)
silent_turn t public_actions window_examined reset = (record t { silent_count = 0 }, none)
silent_turn t public_actions window_examined inc =
    let t' = record t { silent_count = t.silent_count + 1 } in
    (t', breach_message t' public_actions window_examined)

unfoldable pub after_turn :
    SilentTurnTracker
    → Option (List PublicAction)
    → Bool
    → Option String
    → Bool
    → SilentTurnTracker × Option SilentBreach
unfolding silent_turn_mode breach_message
after_turn t public_actions observed_progress status window_examined =
    silent_turn t public_actions window_examined (silent_turn_mode observed_progress status)

pub record StallTracker : Type 0 where
  pub last_fp : Option String
  pub fp_repeat : ℕ
  pub last_head : Option String
  pub seen_head_change : Bool
  pub zero_thread_rounds : ℕ
  pub fp_threshold : ℕ
  pub zero_thread_threshold : ℕ

abbrev pub new_stall : StallTracker
new_stall = record {
  last_fp = none;
  fp_repeat = 0;
  last_head = none;
  seen_head_change = false;
  zero_thread_rounds = 0;
  fp_threshold = 3;
  zero_thread_threshold = 3;
}

pub data StallSignal : Type 0 where
  fingerprint_repeat zero_thread : ℕ → StallSignal

abbrev is_value : Option String → String → Bool
is_value none s = false
is_value (some t) s = str_eq t s

-- Armed: count consecutive identical progress fingerprints.
abbrev count_repeat : StallTracker → String → StallTracker
count_repeat t fp =
    if is_value t.last_fp fp
    then record t { fp_repeat = t.fp_repeat + 1 }
    else record t { fp_repeat = 1; last_fp = some fp }

abbrev fingerprint_signal : StallTracker → Option StallSignal
fingerprint_signal t =
    if leb t.fp_threshold t.fp_repeat then some (fingerprint_repeat t.fp_repeat) else none

-- `observe_fingerprint` once a head is known before and now: `if head_sha != self.last_head` on
observe_head : StallTracker → String → String → String → StallTracker × Option StallSignal
observe_head t fp last head =
    let u =
      if str_eq head last then t else record t { seen_head_change = true; last_head = some head } in
    if not u.seen_head_change
    then (record u { last_fp = some fp; fp_repeat = 0 }, none)
    else (count_repeat u fp, fingerprint_signal (count_repeat u fp))

-- the two early returns: no head yet, and the first head
observe_on :
    StallTracker → String → Option String → Option String → StallTracker × Option StallSignal
unfolding observe_head
observe_on t fp last none = (if is_none t.last_fp then record t { last_fp = some fp } else t, none)
observe_on t fp none (some head) =
    (record t { last_head = some head; last_fp = some fp; fp_repeat = 0 }, none)
observe_on t fp (some last) (some head) = observe_head t fp last head

unfoldable pub observe_fingerprint :
    StallTracker → String → Option String → StallTracker × Option StallSignal
unfolding observe_on
observe_fingerprint t fp head_sha = observe_on t fp t.last_head head_sha

-- `threads_resolved` counts threads, so `<= 0` is the test for 0
unfoldable pub observe_review_round : StallTracker → ℕ → StallTracker × Option StallSignal
observe_review_round t threads_resolved =
    let u = record t {
      zero_thread_rounds = if leb threads_resolved 0 then t.zero_thread_rounds + 1 else 0;
    } in
    (
      u,
      if leb u.zero_thread_threshold u.zero_thread_rounds
          then some (zero_thread u.zero_thread_rounds)
          else none,
    )
