-- ===== src/Store/Escalations/Open.antt =====
-- Opening and closing escalations in db.py.
use text.Mathlib.TextPositions.{eq_refl}
use code_workflow.Prelude.{
  ℕ, ◌<◌, ◌≡◌, refl, String, Option, none, some, List, [], ◌∷◌, ◌++◌, Bool, true, false, arith,
  is_none, get_or, length, inl, inr, Bool-cases,
}
use code_workflow.Prelude.Tables.{
  select, count_where, sort_desc, insert_desc, count-update_cleared, length-select, count-append,
}
use code_workflow.Store.Rows.{Store, Escalation, next_id}
use code_workflow.Store.Escalations.{
  is_open_for, open_escalation, first_row, get_open_escalation, close_escalation,
}

select_of_count-zero :
    (p : Escalation → Bool) (es : List Escalation) → count_where p es ≡ 0 → select p es ≡ []
select_of_count-zero p [] h = refl
select_of_count-zero p (e ∷ es) h = elim (Bool-cases (p e)) [
  | inl k ↦ absurd (ground arith)
  | inr k ↦ rw k (select_of_count-zero p es (ground arith))
]

insert_desc-first_row :
    (key : Escalation → ℕ) (e : Escalation) (es : List Escalation)
    → is_none (first_row (insert_desc key e es)) ≡ false
insert_desc-first_row key e [] = refl
insert_desc-first_row key e (f ∷ fs) = ground arith

sort_desc-first_row :
    (key : Escalation → ℕ) (es : List Escalation)
    → 0 < length es
    → is_none (first_row (sort_desc key es)) ≡ false
sort_desc-first_row key [] h = absurd (omega arith)
sort_desc-first_row key (e ∷ es) h = insert_desc-first_row key e (sort_desc key es)

-- An escalation that is opened is found open, and closing the session's escalations reports how many
-- were open and leaves none to be found.
pub open-close_escalation :
    (now later : ℕ) (key : String) (role : Option String) (reason : String) (comment : Option ℕ)
    (at : Option ℕ) (s : Store)
    → (is_none (get_open_escalation key (open_escalation now key role reason comment s).0) ≡ false)
      × ((close_escalation later key none at s).1 ≡ count_where (is_open_for key) s.escalations)
      × (get_open_escalation key (close_escalation later key none at s).0 ≡ none)
unfolding open_escalation close_escalation get_open_escalation
open-close_escalation now later key role reason comment at s =
    let closed =
      count-update_cleared (is_open_for key)
        (λ e. record e { resolved_at = some (get_or later at) }) (λ e. ground arith)
        s.escalations in
    let row : Escalation = record {
      id = next_id (λ (e : Escalation). e.id) s.escalations;
      session_key = key;
      role = role;
      reason = reason;
      comment_id = comment;
      opened_at = now;
      resolved_at = none;
    } in
    let opened : is_open_for key row ≡ true = ground (arith, eq_refl key) in
    let one : count_where (is_open_for key) (row ∷ []) ≡ 1 = rw opened refl in
    (
      sort_desc-first_row (λ e. e.opened_at) (select (is_open_for key) (s.escalations ++ row ∷ []))
          (omega (
            arith,
            length-select (is_open_for key) (s.escalations ++ row ∷ []),
            count-append (is_open_for key) s.escalations (row ∷ []),
            one,
          )),
      refl,
      rw (select_of_count-zero (is_open_for key) _ closed) refl,
    )
