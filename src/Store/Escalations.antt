-- ===== src/Store/Escalations.antt =====
-- The `escalations` table of db.py.
pub mod Open
use code_workflow.Prelude.{
  ℕ, String, Option, none, some, List, [], ◌∷◌, ◌++◌, Bool, true, false, ◌&&◌, ◌==◌, if◌then◌else◌,
  str_eq, is_none, get_or,
}
use code_workflow.Prelude.Tables.{select, count_where, update_where, sort_desc, insert_desc}
use code_workflow.Store.Rows.{Store, Escalation, next_id}

-- session_key = ? AND resolved_at IS NULL
abbrev pub is_open_for : String → Escalation → Bool
is_open_for session_key e = str_eq e.session_key session_key && is_none e.resolved_at

unfoldable pub open_escalation : ℕ → String → Option String → String → Option ℕ → Store → Store × ℕ
open_escalation now session_key role reason comment_id s =
    let n = next_id (λ (e : Escalation). e.id) s.escalations in
    (
      record s {
        escalations =
            s.escalations
            ++ record {
              id = n;
              session_key = session_key;
              role = role;
              reason = reason;
              comment_id = comment_id;
              opened_at = now;
              resolved_at = none;
            }
              ∷ [];
      },
      n,
    )

abbrev pub first_row : List Escalation → Option Escalation
first_row [] = none
first_row (e ∷ es) = some e

unfoldable pub get_open_escalation : String → Store → Option Escalation
get_open_escalation session_key s =
    first_row (sort_desc (λ e. e.opened_at) (select (is_open_for session_key) s.escalations))

-- the WHERE: by id if one is given, else by session
abbrev pub is_closing : String → Option ℕ → Escalation → Bool
is_closing session_key none e = is_open_for session_key e
is_closing session_key (some n) e = e.id == n && is_none e.resolved_at

unfoldable pub close_escalation : ℕ → String → Option ℕ → Option ℕ → Store → Store × ℕ
close_escalation now session_key escalation_id resolved_at s = (
  record s {
    escalations =
        update_where (is_closing session_key escalation_id)
          (λ e. record e { resolved_at = some (get_or now resolved_at) }) s.escalations;
  },
  count_where (is_closing session_key escalation_id) s.escalations,
)
