-- ===== src/Store/Sessions/Writes.antt =====
-- What the writes of db.py's `sessions` table change, and what they leave alone.
use mathlib.Core.Option
use code_workflow.Prelude.{
  ℕ, ◌+◌, String, ◌≡◌, ◌≢◌, ◌↔◌, refl, sym, ap, ◌∙◌, Option, none, some, List, [], ◌∷◌, Bool, true,
  false, not, if◌then◌else◌, str_eq, eq_iff, any, get_or, coalesce, arith, map, Bool-cases, inl,
  inr,
}
use code_workflow.Prelude.Tables.{
  first_where, first-update_self, first-update_other, first-append_other, map-update, any_of_first,
}
use code_workflow.LoopSafety.{SilentMode}
use code_workflow.Store.Rows.{Store, Session}
use code_workflow.Store.Sessions.{
  has_key, NewSession, inserted, conflicting, upsert_session, moved_silent, bumped,
  bump_turn_counters,
}
use code_workflow.Store.Sessions.Fields.{
  Field, is_allowed, set_field, set_fields, stamped, update_session_fields,
}

abbrev pub find : String → Store → Option Session
find key s = first_where (has_key key) s.sessions

-- A row has one key.
one_key : (j k : String) (x : Session) → j ≢ k → has_key j x ≡ true → has_key k x ≡ false
one_key j k x ne h = ground (arith, eq_iff x.session_key j, eq_iff x.session_key k)

-- An upsert of a stored session keeps its state, its roles and their lock, its counters and its
-- creation time, whatever the call says of them; the reason of the pause, the Design PR and the
-- fingerprint are replaced only by a value that is given.
upsert_session_keeps :
    (a : NewSession) (s : Store) {old : Session}
    → find a.session_key s ≡ some old
    → (new : Session) × (find a.session_key (upsert_session a s) ≡ some new)
      × (new.state ≡ old.state)
      × (new.architect ≡ old.architect)
      × (new.developer ≡ old.developer)
      × (new.roles_locked ≡ old.roles_locked)
      × (new.turn_count ≡ old.turn_count)
      × (new.consec_agent_turns ≡ old.consec_agent_turns)
      × (new.review_rounds ≡ old.review_rounds)
      × (new.progress_repeat ≡ old.progress_repeat)
      × (new.zero_thread_rounds ≡ old.zero_thread_rounds)
      × (new.silent_turns ≡ old.silent_turns)
      × (new.created_at ≡ old.created_at)
      × (new.paused_reason ≡ coalesce a.paused_reason old.paused_reason)
      × (new.design_pr ≡ coalesce a.design_pr old.design_pr)
      × (new.progress_fp ≡ coalesce a.progress_fp old.progress_fp)
unfolding upsert_session
upsert_session_keeps a s {old} h = (
  conflicting a old,
  rw (any_of_first (has_key a.session_key) s.sessions h) (
      first-update_self (has_key a.session_key) (conflicting a) (λ x e. e) s.sessions
      ∙ ap (Option.map (conflicting a)) h),
  refl,
  refl,
  refl,
  refl,
  refl,
  refl,
  refl,
  refl,
  refl,
  refl,
  refl,
  refl,
  refl,
  refl,
)

-- An upsert leaves every other session as it is.
pub upsert_session_other :
    (a : NewSession) (key : String) (s : Store)
    → a.session_key ≢ key
    → find key (upsert_session a s) ≡ find key s
unfolding upsert_session
upsert_session_other a key s ne = elim (Bool-cases (any (has_key a.session_key) s.sessions)) [
  | inl old ↦ rw old (
      first-update_other (has_key a.session_key) (conflicting a) (has_key key)
        (λ x h. one_key key a.session_key x (λ e. ne (sym e)) h)
        (λ x h. one_key a.session_key key x ne h) s.sessions)
  | inr new ↦ rw new (
      first-append_other (has_key key) s.sessions (inserted a)
        (ground (arith, eq_iff a.session_key key)))
]

-- For a stored session, the counters returned are those of the stored row after the call: the turn
-- is counted, the run of agent turns restarts at this turn or grows by it, the silent counter
-- moves as its mode says, and the state stays.
pub bump_turn_counters_lem :
    (now : ℕ) (key : String) (silent : SilentMode) (restart : Bool) (s : Store) {old : Session}
    → find key s ≡ some old
    → (new : Session) × (find key (bump_turn_counters now key silent restart s).0 ≡ some new)
      × ((bump_turn_counters now key silent restart s).1
          ≡ some (record {
            turn_count = new.turn_count;
            consec_agent_turns = new.consec_agent_turns;
            silent_turns = new.silent_turns;
          }))
      × (new.turn_count ≡ old.turn_count + 1)
      × (new.consec_agent_turns ≡ (if restart then 1 else old.consec_agent_turns + 1))
      × (new.silent_turns ≡ moved_silent silent old.silent_turns)
      × (new.state ≡ old.state)
unfolding bump_turn_counters
bump_turn_counters_lem now key silent restart s {old} h =
    let found =
      first-update_self (has_key key) (bumped now silent restart) (λ x e. e) s.sessions
      ∙ ap (Option.map (bumped now silent restart)) h in
    (bumped now silent restart old, found, rw found, refl, refl, refl, refl)

set_fields-session_key :
    (fs : List Field) (x : Session) → (set_fields fs x).session_key ≡ x.session_key
set_fields-session_key [] x = refl
set_fields-session_key (f ∷ fs) x = set_fields-session_key fs (set_field f x) ∙ kept f
  where
    kept : (f : Field) → (set_field f x).session_key ≡ x.session_key
    kept (Field.state v) = refl
    kept _ = refl

pub stamped-session_key :
    (now : ℕ) (fs : List Field) (x : Session) → (stamped now fs x).session_key ≡ x.session_key
stamped-session_key now fs x = ground (arith, set_fields-session_key fs x)

-- An update of a session is refused exactly if one of its fields is not an allowed column.
pub update_session_fields_refused :
    (now : ℕ) (key : String) (fs : List Field) (s : Store)
    → (update_session_fields now key fs s ≡ none) ↔ (any (λ f. not (is_allowed f)) fs ≡ true)
unfolding update_session_fields
update_session_fields_refused now key [] s = (λ h. cc h, λ h. cc h)
update_session_fields_refused now key (f ∷ fs) s = (λ h. ground arith, λ h. ground arith)

-- An accepted update leaves every other session, every session key, the deliveries and the turns
-- as they are.
pub update_session_fields_other :
    (now : ℕ) (key other : String) (fs : List Field) (s : Store) {s' : Store}
    → key ≢ other
    → update_session_fields now key fs s ≡ some s'
    → (find other s' ≡ find other s)
      × (map (λ x. x.session_key) s'.sessions ≡ map (λ x. x.session_key) s.sessions)
      × (s'.deliveries ≡ s.deliveries)
      × (s'.turns ≡ s.turns)
unfolding update_session_fields
update_session_fields_other now key other [] s {s'} ne h =
    let q : s ≡ s' = ap (get_or s) h in rw (← q) (refl, refl, refl, refl)
update_session_fields_other now key other (f ∷ fs) s {s'} ne h =
    elim (Bool-cases (any (λ g. not (is_allowed g)) (f ∷ fs))) [
      | inl bad ↦ cc (rw bad at h)
      | inr good ↦
          let q = ap (get_or s) (rw good at h) in
          rw (← q) (
            first-update_other (has_key key) (stamped now (f ∷ fs)) (has_key other)
                (λ x e. one_key other key x (λ e'. ne (sym e')) e)
                (λ x e.
                  ap (λ k. str_eq k other) (stamped-session_key now (f ∷ fs) x)
                  ∙ one_key key other x ne e)
                s.sessions,
            map-update (has_key key) (stamped now (f ∷ fs)) (λ x. x.session_key)
                (stamped-session_key now (f ∷ fs)) s.sessions,
            refl,
            refl,
          )
    ]
