-- ===== src/Store/Artifacts/Ledger.antt =====
-- Registering and removing artifacts in the cleanup ledger of db.py.
use text.Mathlib.TextPositions.{eq_refl}
use code_workflow.Prelude.{
  ℕ, ◌+◌, String, ◌≡◌, refl, ap, Option, some, Bool, true, false, ◌||◌, ◌&&◌, str_eq, any, arith,
  Bool-cases, Option-cases, inl, inr, is_none, get_or, strip,
}
use code_workflow.Prelude.Tables.{
  first_where, count_where, first-append, count-update_cleared, none_of_first, count-update_dropped,
}
use code_workflow.Store.Rows.{Store, Artifact, next_id}
use code_workflow.Store.Artifacts.{
  non_empty, stamp, is_open_artifact, Registered, row_id, artifact_row, register_artifact,
  is_removable, mark_artifact_removed, count_open_artifacts,
}

abbrev open_row : String → String → String → Store → Option Artifact
open_row session_key kind ref s =
    first_where (is_open_artifact session_key (non_empty kind "scratch") (strip ref)) s.artifacts

is_open_artifact-row :
    (id : ℕ) (session_key role kind ref : String) (t : ℕ)
    → is_open_artifact session_key kind ref (artifact_row id session_key role kind ref t) ≡ true
is_open_artifact-row id session_key role kind ref t =
    ground (arith, eq_refl session_key, eq_refl kind, eq_refl ref)

abbrev id_of : Registered → ℕ
id_of (row_id n) = n
id_of _ = 0

-- the arguments name a session and an artifact
abbrev is_nameless : String → String → Bool
is_nameless key ref = str_eq key "" || str_eq (strip ref) ""

-- What a registration that returned an id has left: the id is that of the open row.
registered_open :
    (now : ℕ) (key role kind ref : String) (created : Option ℕ) (s : Store) {n : ℕ}
    → (register_artifact now key role kind ref created s).1 ≡ row_id n
    → (is_nameless key ref ≡ false)
      × (a : Artifact) × (open_row key kind ref
            (register_artifact now key role kind ref created s).0
          ≡ some a)
      × (a.id ≡ n)
unfolding register_artifact
registered_open now key role kind ref created s {n} h = elim (Bool-cases (is_nameless key ref)) [
  | inl e ↦ cc (rw e at h)
  | inr e ↦ elim (Option-cases (open_row key kind ref s)) [
    | inr (a, old) ↦ rw (e, old) (refl, a, old, ap id_of (rw (e, old) at h))
    | inl new ↦ elim (Bool-cases (any (λ x. str_eq x.session_key key) s.sessions)) [
      | inr foreign ↦ cc (rw (e, new, foreign) at h)
      | inl stored ↦
          rw (e, new, stored)
            (
              refl,
              artifact_row _ key (non_empty role "system") (non_empty kind "scratch") (strip ref) _,
              first-append (is_open_artifact key (non_empty kind "scratch") (strip ref)) s.artifacts
                  _
                  (none_of_first (is_open_artifact key (non_empty kind "scratch") (strip ref))
                    s.artifacts new)
                  (is_open_artifact-row (next_id (λ (a : Artifact). a.id) s.artifacts) key
                    (non_empty role "system") (non_empty kind "scratch") (strip ref)
                    (stamp now created)),
              ap id_of (rw (e, new, stored) at h),
            )
    ]
  ]
]

-- Registration is idempotent: a second one of the same artifact, while the first is open, returns
-- the id of the first and changes nothing, whatever role and time it gives.
pub register_artifact_again :
    (now later : ℕ) (key role role' kind ref : String) (created created' : Option ℕ) (s : Store)
    {n : ℕ}
    → (register_artifact now key role kind ref created s).1 ≡ row_id n
    → let s' = (register_artifact now key role kind ref created s).0 in
      register_artifact later key role' kind ref created' s' ≡ (s', row_id n)
register_artifact_again now later key role role' kind ref created created' s {n} h =
    let (named, a, found, is_n) = registered_open now key role kind ref created s h in
    again (register_artifact now key role kind ref created s).0 named found is_n
  where
    again :
        (t : Store) {a : Artifact}
        → is_nameless key ref ≡ false
        → open_row key kind ref t ≡ some a
        → a.id ≡ n
        → register_artifact later key role' kind ref created' t ≡ (t, row_id n)
    again t {a} named found is_n =
        unfold register_artifact in rw (named, found) (ap (λ m. (t, row_id m)) is_n)

removed_open :
    (key ref : String) (kind : Option String) (a : Artifact)
    → is_removable key ref kind a ≡ true
    → (str_eq a.session_key key && is_none a.removed_at) ≡ true
removed_open key ref kind a h = ground arith

-- Marking an artifact removed reports how many open rows it closed, leaves none of these open, and
-- takes exactly that many off the session's open artifacts.
pub mark_artifact_removed_lem :
    (now : ℕ) (key ref : String) (kind : Option String) (at : Option ℕ) (s : Store)
    → (count_where
          (is_removable key ref kind)
          (mark_artifact_removed now key ref kind at s).0.artifacts
        ≡ 0)
      × (count_open_artifacts key (mark_artifact_removed now key ref kind at s).0
            + (mark_artifact_removed now key ref kind at s).1
          ≡ count_open_artifacts key s)
unfolding mark_artifact_removed count_open_artifacts
mark_artifact_removed_lem now key ref kind at s =
    let close = λ (a : Artifact). record a { removed_at = some (get_or now at) } in
    (
      count-update_cleared (is_removable key ref kind) close (λ a. ground arith) s.artifacts,
      count-update_dropped (is_removable key ref kind)
          (λ a. str_eq a.session_key key && is_none a.removed_at) close (removed_open key ref kind)
          (λ a. ground arith) s.artifacts,
    )
