-- ===== src/Store/Sessions/Updates.antt =====
-- The row that `update_session_fields` of db.py leaves.
use mathlib.Core.Option
use code_workflow.Prelude.{
  ℕ, String, ◌≡◌, refl, ap, ◌∙◌, some, List, ◌∷◌, false, not, str_eq, eq_iff, any,
}
use code_workflow.Prelude.Tables.{first_where, update_where, first-update_self, first_sound}
use code_workflow.Store.Rows.{Store, Session}
use code_workflow.Store.Sessions.{has_key}
use code_workflow.Store.Sessions.Fields.{Field, is_allowed, stamped, update_session_fields}
use code_workflow.Store.Sessions.Writes.{find, stamped-session_key}

pub found_key : (key : String) (s : Store) {x : Session} → find key s ≡ some x → x.session_key ≡ key
found_key key s {x} h =
    let (k, m) = first_sound (has_key key) s.sessions h in (eq_iff x.session_key key).0 k

pub update_session_fields_found :
    (now : ℕ) (key : String) (f : Field) (fs : List Field) (s : Store) {x : Session}
    → find key s ≡ some x
    → any (λ g. not (is_allowed g)) (f ∷ fs) ≡ false
    → (update_session_fields now key (f ∷ fs) s
        ≡ some
            (record s { sessions = update_where (has_key key) (stamped now (f ∷ fs)) s.sessions }))
      × (first_where (has_key key) (update_where (has_key key) (stamped now (f ∷ fs)) s.sessions)
          ≡ some (stamped now (f ∷ fs) x))
unfolding update_session_fields
update_session_fields_found now key f fs s h good = (
  rw good refl,
  first-update_self (has_key key) (stamped now (f ∷ fs))
        (λ x e. ap (λ k. str_eq k key) (stamped-session_key now (f ∷ fs) x) ∙ e) s.sessions
      ∙ ap (Option.map (stamped now (f ∷ fs))) h,
)
