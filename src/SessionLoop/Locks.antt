-- ===== src/SessionLoop/Locks.antt =====
-- The lock of the roles in session_loop.py, over observed events, pauses and replies.
use code_workflow.Prelude.{
  ℕ, String, ◌≡◌, ◌≢◌, ◌⊎◌, refl, sym, ap, ◌∙◌, Option, none, some, [], ◌∷◌, ◌++◌, Bool, true,
  false, not, if◌then◌else◌, any, get_or, arith, Bool-cases, Option-cases, inl, inr,
}
use code_workflow.Fsm.{
  SessionState, EventKind, Transition, paused_human, closed, design_review, design_rework,
  implementing, code_review, code_rework, merging, awaiting_verification, design_pr_opened,
  feature_pr_opened, transition,
}
use code_workflow.Store.Rows.{Store, Session}
use code_workflow.Store.Sessions.Fields.{Field, is_allowed, stamped}
use code_workflow.Store.Sessions.Writes.{find}
use code_workflow.Store.Sessions.Updates.{update_session_fields_found}
use code_workflow.SessionLoop.{
  pr_field, lock_field, step_fields, advance, resume_or_planning, resume_target, resume_fields,
  resume_from_escalation,
}
use code_workflow.SessionLoop.Pause.{
  Escalating, paused_row, escalate_by, escalate_found, escalate_closed, resume_row,
}

-- The states from the Design PR on.
abbrev pub is_past_planning : SessionState → Bool
is_past_planning design_review = true
is_past_planning design_rework = true
is_past_planning SessionState.design_approved = true
is_past_planning implementing = true
is_past_planning code_review = true
is_past_planning code_rework = true
is_past_planning merging = true
is_past_planning awaiting_verification = true
is_past_planning _ = false

-- The roles are locked, or neither the state nor the one to resume is past PLANNING.
abbrev IsLockedRow : Session → Type 0
IsLockedRow x =
    (x.roles_locked ≡ 1)
    ⊎ ((is_past_planning x.state ≡ false)
        × (is_past_planning (resume_or_planning x.resume_state) ≡ false))

pr_field_cases :
    (kind : EventKind) (pr : Option ℕ)
    → (pr_field kind pr ≡ [])
      ⊎ ((pr_field kind pr ≡ Field.design_pr pr ∷ [])
          ⊎ (pr_field kind pr ≡ Field.feature_pr pr ∷ []))
pr_field_cases design_pr_opened (some n) = inr (inl refl)
pr_field_cases feature_pr_opened (some n) = inr (inr refl)
pr_field_cases design_pr_opened none = inl refl
pr_field_cases feature_pr_opened none = inl refl
pr_field_cases _ pr = inl refl

abbrev advanced_row : ℕ → EventKind → Option ℕ → Transition → Session → Session
advanced_row now kind pr tr x = stamped now (step_fields kind pr tr) x

advanced_row_lem :
    (now : ℕ) (kind : EventKind) (pr : Option ℕ) (tr : Transition) (x : Session)
    → ((advanced_row now kind pr tr x).state ≡ tr.new_state)
      × ((advanced_row now kind pr tr x).resume_state ≡ x.resume_state)
      × ((advanced_row now kind pr tr x).roles_locked
          ≡ (if tr.freeze_roles then 1 else x.roles_locked))
advanced_row_lem now kind pr tr x = elim (Bool-cases tr.freeze_roles) [
  | inl f ↦ elim (pr_field_cases kind pr) [
    | inl e ↦ rw (f, e) (refl, refl, refl)
    | inr (inl e) ↦ rw (f, e) (refl, refl, refl)
    | inr (inr e) ↦ rw (f, e) (refl, refl, refl)
  ]
  | inr f ↦ elim (pr_field_cases kind pr) [
    | inl e ↦ rw (f, e) (refl, refl, refl)
    | inr (inl e) ↦ rw (f, e) (refl, refl, refl)
    | inr (inr e) ↦ rw (f, e) (refl, refl, refl)
  ]
]

transition-is_past_planning :
    (s : SessionState) (k : EventKind) (t : Transition)
    → transition (some s) k ≡ some t
    → (t.freeze_roles ≡ true)
      ⊎ ((is_past_planning s ≡ true) ⊎ (is_past_planning t.new_state ≡ false))
unfolding transition
transition-is_past_planning s k t e = ground arith

-- One write of the session loop to the session `key`.
pub data Step (key : String) : Store → Store → Type 0 where
  advanced :
      {s s' : Store} {x : Session}
      → find key s ≡ some x
      → (now : ℕ) (kind : EventKind) (pr : Option ℕ) → advance now key x.state kind pr s ≡ some s'
      → Step key s s'
  escalated : {s s' : Store} → (e : Escalating) → escalate_by key e s ≡ some s' → Step key s s'
  resumed :
      {s s' : Store} {x : Session}
      → find key s ≡ some x
      → x.state ≡ paused_human
      → (now : ℕ) (delivery : String) → resume_from_escalation now x delivery s ≡ some s'
      → Step key s s'

pub data Reaches (key : String) : Store → Store → Type 0 where
  here : {s : Store} → Reaches key s s
  step : {s t u : Store} → Reaches key s t → Step key t u → Reaches key s u

abbrev IsLockedAt : String → Store → Type 0
IsLockedAt key s = (x : Session) × (find key s ≡ some x) × IsLockedRow x

the_value {ℓ} : {A : Type ℓ} {o : Option A} {a b : A} → o ≡ some a → o ≡ some b → a ≡ b
the_value {a = a} h k = ap (get_or a) (sym h ∙ k)

pub allowed_fields :
    (kind : EventKind) (pr : Option ℕ) (t : Transition)
    → any (λ f. not (is_allowed f)) (step_fields kind pr t) ≡ false
allowed_fields kind pr t = elim (pr_field_cases kind pr) [
  | inl e ↦ rw e (ground arith)
  | inr (inl e) ↦ rw e (ground arith)
  | inr (inr e) ↦ rw e (ground arith)
]

still_locked :
    (now : ℕ) (kind : EventKind) (pr : Option ℕ) (t : Transition) (x : Session)
    → IsLockedRow x
    → transition (some x.state) kind ≡ some t
    → IsLockedRow (advanced_row now kind pr t x)
still_locked now kind pr t x locked e =
    let (st, back, lock) = advanced_row_lem now kind pr t x in
    rw (st, back, lock) (ground (arith, locked, transition-is_past_planning x.state kind t e))

advance-IsLockedAt :
    (key : String) (s s' : Store) (x : Session) (now : ℕ) (kind : EventKind) (pr : Option ℕ)
    → find key s ≡ some x
    → IsLockedRow x
    → advance now key x.state kind pr s ≡ some s'
    → IsLockedAt key s'
unfolding advance
advance-IsLockedAt key s s' x now kind pr found locked h =
    elim (Option-cases (transition (some x.state) kind)) [
      | inl e ↦ (x, rw (the_value (rw e at h) refl) found, locked)
      | inr (t, e) ↦
          let fs = lock_field t.freeze_roles ++ pr_field kind pr in
          let (written, row) =
            update_session_fields_found now key (Field.state t.new_state) fs s found
              (allowed_fields kind pr t) in
          (
            advanced_row now kind pr t x,
            rw (the_value (rw e at h) written) row,
            still_locked now kind pr t x locked e,
          )
    ]

paused_row-IsLockedRow :
    (e : Escalating) (x : Session) → IsLockedRow x → IsLockedRow (paused_row e x)
paused_row-IsLockedRow e x locked = ground arith

resumed_row-IsLockedRow :
    (now : ℕ) (x : Session)
    → IsLockedRow x
    → IsLockedRow (stamped now (resume_fields (resume_target x)) x)
resumed_row-IsLockedRow now x locked = ground arith

is_closed_cases : (s : SessionState) → (s ≡ closed) ⊎ (s ≢ closed)
is_closed_cases closed = inl refl
is_closed_cases _ = inr (λ e. ground arith)

Step-IsLockedAt :
    {key : String} {s s' : Store} → Step key s s' → IsLockedAt key s → IsLockedAt key s'
Step-IsLockedAt {key} {s} {s'} (advanced found now kind pr h) (x, at, locked) =
    let same = the_value found at in
    advance-IsLockedAt key s s' x now kind pr at locked (rw same at h)
Step-IsLockedAt {key} {s} {s'} (escalated e h) (x, at, locked) = elim (is_closed_cases x.state) [
  | inl c ↦ (x, rw (the_value h (escalate_closed key e s at c)) at, locked)
  | inr live ↦
      let (t, written, row) = escalate_found key e s at live in
      (paused_row e x, rw (the_value h written) row, paused_row-IsLockedRow e x locked)
]
Step-IsLockedAt {key} {s} {s'} (resumed {x = y} found paused now delivery h) (x, at, locked) =
    let same = the_value found at in
    let (r, written, row, closed_all) = resume_row now key delivery s y found paused in
    (
      stamped now (resume_fields (resume_target y)) y,
      rw (the_value h written) row,
      resumed_row-IsLockedRow now y (rw same locked),
    )

Reaches-IsLockedAt :
    {key : String} {s t : Store} → Reaches key s t → IsLockedAt key s → IsLockedAt key t
Reaches-IsLockedAt here l = l
Reaches-IsLockedAt (step r m) l = Step-IsLockedAt m (Reaches-IsLockedAt r l)

-- From a session that is not past PLANNING and has no state to resume, whatever observed events,
-- escalations and owner's replies follow: once it is past PLANNING its roles are locked.
pub past_planning-roles_locked :
    (key : String) (s t : Store) (x y : Session)
    → find key s ≡ some x
    → is_past_planning x.state ≡ false
    → x.resume_state ≡ none
    → Reaches key s t
    → find key t ≡ some y
    → is_past_planning y.state ≡ true
    → y.roles_locked ≡ 1
past_planning-roles_locked key s t x y at early back r at_t late =
    let (z, at_z, locked) = Reaches-IsLockedAt r (x, at, inr (early, rw back refl)) in
    ground (arith, rw (the_value at_z at_t) at locked)
