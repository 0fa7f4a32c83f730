-- ===== src/Store/Turns.antt =====
-- The `turns` table of db.py.
pub mod Lifecycle
use code_workflow.Prelude.{
  ℕ, ◌+◌, String, Option, none, some, List, [], ◌∷◌, ◌++◌, Bool, true, false, not, ◌&&◌, ◌||◌,
  if◌then◌else◌, str_eq, any, is_none, coalesce, get_or, ltb,
}
use code_workflow.Prelude.Tables.{select, count_where, update_where, first_where, sort_by}
use code_workflow.Fsm.{SessionState}
use code_workflow.Store.Rows.{Store, Session, Turn}

abbrev pub has_turn : String → Turn → Bool
has_turn id t = str_eq t.turn_id id

-- turn_id = ? AND ended_at IS NULL
abbrev pub is_open_turn : String → Turn → Bool
is_open_turn id t = has_turn id t && is_none t.ended_at

unfoldable pub count_turns : String → Store → ℕ
count_turns session_key s = count_where (λ t. str_eq t.session_key session_key) s.turns

unfoldable pub list_turns : String → Store → List Turn
list_turns session_key s =
    sort_by (λ t. t.started_at) (select (λ t. str_eq t.session_key session_key) s.turns)

-- `none` is the IntegrityError of a turn id that is taken, or of a session that is not stored.
unfoldable pub insert_turn :
    String
    → String
    → String
    → Option String
    → ℕ
    → Option ℕ
    → Option String
    → Option String
    → Store
    → Option Store
insert_turn turn_id session_key role delivery_id started_at ended_at status summary s =
    if any (has_turn turn_id) s.turns
      || not (any (λ x. str_eq x.session_key session_key) s.sessions)
    then none
    else some (record s {
      turns =
          s.turns
          ++ record {
            turn_id = turn_id;
            session_key = session_key;
            role = role;
            delivery_id = delivery_id;
            started_at = started_at;
            ended_at = ended_at;
            status = status;
            summary = summary;
            public_actions = none;
            resume_attempts = 0;
          }
            ∷ [];
    })

unfoldable pub get_turn : String → Store → Option Turn
get_turn turn_id s = first_where (has_turn turn_id) s.turns

abbrev pub finished : ℕ → String → Option String → Option String → Turn → Turn
finished ended_at status summary public_actions t = record t {
  ended_at = some ended_at;
  status = some status;
  summary = summary;
  public_actions = coalesce public_actions t.public_actions;
}

unfoldable pub finish_turn : String → ℕ → String → Option String → Option String → Store → Store
finish_turn turn_id ended_at status summary public_actions s = record s {
  turns =
      update_where (is_open_turn turn_id) (finished ended_at status summary public_actions) s.turns;
}

abbrev pub resuming : Turn → Turn
resuming t = record t { status = some "resuming"; resume_attempts = t.resume_attempts + 1 }

abbrev pub attempts_of : Option Turn → ℕ
attempts_of none = 0
attempts_of (some t) = t.resume_attempts

unfoldable pub mark_turn_resuming : String → Store → Store × ℕ
mark_turn_resuming turn_id s =
    let turns = update_where (is_open_turn turn_id) resuming s.turns in
    (record s { turns = turns }, attempts_of (first_where (has_turn turn_id) turns))

abbrev pub is_resuming : Option String → Bool
is_resuming none = false
is_resuming (some st) = str_eq st "resuming"

unfoldable pub clear_turn_resuming : String → Store → Store
clear_turn_resuming turn_id s = record s {
  turns =
      update_where (λ t. is_open_turn turn_id t && is_resuming t.status)
        (λ t. record t { status = none }) s.turns;
}

-- A turn with the state of its session, by LEFT JOIN.
pub record TurnView : Type 0 where
  pub turn : Turn
  pub session_state : Option SessionState

abbrev state_of : Option Session → Option SessionState
state_of none = none
state_of (some x) = some x.state

abbrev with_states : Store → List Turn → List TurnView
with_states s [] = []
with_states s (t ∷ ts) =
    record {
      turn = t;
      session_state = state_of (first_where (λ x. str_eq x.session_key t.session_key) s.sessions);
    }
    ∷ with_states s ts

unfoldable pub list_open_turns : Store → List TurnView
list_open_turns s =
    with_states s (sort_by (λ t. t.started_at) (select (λ t. is_none t.ended_at) s.turns))

unfoldable pub list_resuming_turns : Store → List TurnView
list_resuming_turns s =
    with_states s (
      sort_by (λ t. t.started_at)
        (select (λ t. is_none t.ended_at && is_resuming t.status) s.turns))

-- The set as its membership test. `started_at > now - max_age_s` is written without the subtraction,
-- which may pass below 0; an empty key is left out.
unfoldable pub projects_with_open_turns : ℕ → ℕ → Store → String → Bool
projects_with_open_turns now max_age_s s key =
    not (str_eq key "")
    && any
        (λ t.
          is_none t.ended_at
          && ltb now (t.started_at + max_age_s)
          && any (λ x. str_eq x.session_key t.session_key && str_eq x.project_key key) s.sessions)
        s.turns
