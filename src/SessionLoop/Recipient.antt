-- ===== src/SessionLoop/Recipient.antt =====
-- Whom `_pick_recipient` of session_loop.py hands a turn to.
use code_workflow.Prelude.{
  ◌≡◌, ◌≢◌, ◌↔◌, refl, sym, ◌∙◌, String, none, arith, str_eq, eq_iff, lower, Bool-cases, inl, inr,
}
use code_workflow.Fsm.{EventKind}
use code_workflow.SessionLoop.{developer, role_of_kind, pick_recipient}

-- If the two logins differ in more than case, an event without a fixed recipient goes to a login
-- that is not the sender's, and to the developer exactly if the sender is the architect.
pub pick_recipient_other :
    (kind : EventKind) (architect_login developer_login sender : String)
    → role_of_kind kind ≡ none
    → lower architect_login ≢ lower developer_login
    → (lower (pick_recipient kind architect_login developer_login sender).1 ≢ lower sender)
      × (((pick_recipient kind architect_login developer_login sender).0 ≡ developer)
          ↔ (lower sender ≡ lower architect_login))
unfolding pick_recipient
pick_recipient_other kind a d sender free ne = elim (Bool-cases (str_eq (lower sender) (lower a))) [
  | inl e ↦
      let same = (eq_iff (lower sender) (lower a)).0 e in
      rw (pick_recipient, free, e) (λ h. ne (sym (h ∙ same)), (λ h. same, λ h. refl))
  | inr e ↦
      let differ : lower sender ≢ lower a =
        λ h. ground (arith, eq_iff (lower sender) (lower a), h) in
      rw (pick_recipient, free, e) (λ h. differ (sym h), (λ h. cc h, λ h. absurd (differ h)))
]
