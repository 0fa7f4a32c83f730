-- ===== src/Store/Turns/Lifecycle.antt =====
-- Finishing and resuming a turn of db.py.
use code_workflow.Prelude.{
  ℕ, zero, suc, ◌+◌, String, ◌≡◌, refl, ap, Option, none, some, true, false, ◌&&◌, if◌then◌else◌,
  arith,
}
use code_workflow.Prelude.Tables.{first-update_within, update-update_cleared, first_sound}
use code_workflow.Store.Rows.{Store, Turn}
use code_workflow.Store.Turns.{
  has_turn, attempts_of, is_open_turn, get_turn, finished, finish_turn, resuming,
  mark_turn_resuming, is_resuming, clear_turn_resuming,
}

not-open_of-finished :
    (id : String) (ended_at : ℕ) (status : String) (summary actions : Option String) (t : Turn)
    → is_open_turn id (finished ended_at status summary actions t) ≡ false
not-open_of-finished id ended_at status summary actions t = ground arith

-- A second finish of a turn, whatever it says, changes nothing.
pub finish_turn_once :
    (id : String) (e₁ e₂ : ℕ) (st₁ st₂ : String) (sum₁ sum₂ act₁ act₂ : Option String) (s : Store)
    → finish_turn id e₂ st₂ sum₂ act₂ (finish_turn id e₁ st₁ sum₁ act₁ s)
      ≡ finish_turn id e₁ st₁ sum₁ act₁ s
unfolding finish_turn
finish_turn_once id e₁ e₂ st₁ st₂ sum₁ sum₂ act₁ act₂ s =
    ap (λ ts. record s { turns = ts })
      (update-update_cleared (is_open_turn id) (finished e₁ st₁ sum₁ act₁)
        (not-open_of-finished id e₁ st₁ sum₁ act₁) (finished e₂ st₂ sum₂ act₂) s.turns)

pub first_has_turn :
    (id : String) (s : Store) {t : Turn} → get_turn id s ≡ some t → has_turn id t ≡ true
unfolding get_turn
first_has_turn id s h = (first_sound (has_turn id) s.turns h).0

mark_turn_resuming-count :
    (id : String) (s : Store)
    → (mark_turn_resuming id s).1 ≡ attempts_of (get_turn id (mark_turn_resuming id s).0)
unfolding get_turn mark_turn_resuming
mark_turn_resuming-count id s = refl

-- What each write makes of the first row with a turn's id.
module _ (id : String) (s : Store) {t : Turn} (h : get_turn id s ≡ some t) where
  pub get_turn-finish_turn :
      (ended_at : ℕ) (status : String) (summary actions : Option String)
      → get_turn id (finish_turn id ended_at status summary actions s)
        ≡ some (if is_open_turn id t then finished ended_at status summary actions t else t)
  unfolding get_turn finish_turn
  get_turn-finish_turn ended_at status summary actions =
      first-update_within (has_turn id) (is_open_turn id) (finished ended_at status summary actions)
        (λ x. refl) s.turns h

  get_turn-mark_turn_resuming :
      get_turn id (mark_turn_resuming id s).0 ≡ some (if is_open_turn id t then resuming t else t)
  unfolding get_turn mark_turn_resuming
  get_turn-mark_turn_resuming =
      first-update_within (has_turn id) (is_open_turn id) resuming (λ x. refl) s.turns h

  pub get_turn-clear_turn_resuming :
      get_turn id (clear_turn_resuming id s)
      ≡ some (if is_open_turn id t && is_resuming t.status then record t { status = none } else t)
  unfolding get_turn clear_turn_resuming
  get_turn-clear_turn_resuming =
      first-update_within (has_turn id) (λ x. is_open_turn id x && is_resuming x.status)
        (λ x. record x { status = none }) (λ x. refl) s.turns h

module _ (id : String) (s : Store) {t : Turn} (h : get_turn id s ≡ some t) where
  pub marked_open :
      is_open_turn id t ≡ true
      → (get_turn id (mark_turn_resuming id s).0 ≡ some (resuming t))
        × ((mark_turn_resuming id s).1 ≡ t.resume_attempts + 1)
  marked_open live =
      let found : get_turn id (mark_turn_resuming id s).0 ≡ some (resuming t) =
        rw (get_turn-mark_turn_resuming id s h, live) refl in
      (found, rw (mark_turn_resuming-count id s, found) refl)

  marked_shut :
      is_open_turn id t ≡ false
      → (get_turn id (mark_turn_resuming id s).0 ≡ some t)
        × ((mark_turn_resuming id s).1 ≡ t.resume_attempts)
  marked_shut shut =
      let found : get_turn id (mark_turn_resuming id s).0 ≡ some t =
        rw (get_turn-mark_turn_resuming id s h, shut) refl in
      (found, rw (mark_turn_resuming-count id s, found) refl)

-- A turn that has ended is changed by no finish, no resume mark and no clearing of one, and marking
-- it reports the attempts that it had.
pub ended_turn_frozen :
    (id : String) (s : Store) {t : Turn} {e : ℕ} (ended_at : ℕ) (status : String)
    (summary actions : Option String)
    → get_turn id s ≡ some t
    → t.ended_at ≡ some e
    → (get_turn id (finish_turn id ended_at status summary actions s) ≡ some t)
      × (get_turn id (mark_turn_resuming id s).0 ≡ some t)
      × ((mark_turn_resuming id s).1 ≡ t.resume_attempts)
      × (get_turn id (clear_turn_resuming id s) ≡ some t)
ended_turn_frozen id s {t} ended_at status summary actions h e =
    let shut : is_open_turn id t ≡ false = ground arith in
    (
      rw (get_turn-finish_turn id s h ended_at status summary actions, shut) refl,
      (marked_shut id s h shut).0,
      (marked_shut id s h shut).1,
      rw (get_turn-clear_turn_resuming id s h, shut) refl,
    )

-- One failed resume: the mark, and the clearing that lets the next pass retry.
unfoldable pub failed_resumes : ℕ → String → Store → Store
failed_resumes zero id s = s
failed_resumes (suc n) id s =
    failed_resumes n id (clear_turn_resuming id (mark_turn_resuming id s).0)

pub cleared_attempt :
    (id : String) (s : Store) {t : Turn}
    → get_turn id s ≡ some t
    → t.ended_at ≡ none
    → (u : Turn) × (get_turn id (clear_turn_resuming id (mark_turn_resuming id s).0) ≡ some u)
      × (u.ended_at ≡ none)
      × (u.resume_attempts ≡ t.resume_attempts + 1)
cleared_attempt id s {t} h e =
    let live : is_open_turn id t ≡ true = ground (arith, first_has_turn id s h) in
    let live' : (is_open_turn id (resuming t) && is_resuming (resuming t).status) ≡ true =
      ground (arith, first_has_turn id s h) in
    let marked = (marked_open id s h live).0 in
    (
      record (resuming t) { status = none },
      rw (get_turn-clear_turn_resuming id (mark_turn_resuming id s).0 marked, live') refl,
      e,
      refl,
    )

-- The attempts of an open turn survive failed resumes: after n of them the next mark reports n + 1
-- more than the turn had.
pub failed_resumes-count :
    (n : ℕ) (id : String) (s : Store) {t : Turn}
    → get_turn id s ≡ some t
    → t.ended_at ≡ none
    → (mark_turn_resuming id (failed_resumes n id s)).1 ≡ t.resume_attempts + n + 1
unfolding failed_resumes
failed_resumes-count zero id s {t} h e =
    let live : is_open_turn id t ≡ true = ground (arith, first_has_turn id s h) in
    omega (arith, (marked_open id s h live).1)
failed_resumes-count (suc n) id s {t} h e =
    let (u, found, live, more) = cleared_attempt id s h e in
    omega (
      arith,
      failed_resumes-count n id (clear_turn_resuming id (mark_turn_resuming id s).0) found live,
      more,
    )
