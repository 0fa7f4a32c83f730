-- ===== src/Store/Artifacts.antt =====
-- The cleanup ledger of db.py: the `artifacts` table.
pub mod Ledger
use code_workflow.Prelude.{
  ℕ, ◌+◌, String, Option, none, some, List, [], ◌∷◌, ◌++◌, Bool, true, false, not, ◌&&◌, ◌||◌, ◌==◌,
  leb, if◌then◌else◌, str_eq, any, is_none, get_or, strip,
}
use code_workflow.Prelude.Tables.{select, count_where, update_where, first_where, sort_by}
use code_workflow.Store.Rows.{Store, Session, Artifact, next_id}

abbrev pub non_empty : String → String → String
non_empty s default = if str_eq s "" then default else s

-- session_key = ? AND kind = ? AND ref = ? AND removed_at IS NULL
abbrev pub is_open_artifact : String → String → String → Artifact → Bool
is_open_artifact session_key kind ref a =
    str_eq a.session_key session_key
    && str_eq a.kind kind
    && str_eq a.ref ref
    && is_none a.removed_at

pub data Registered : Type 0 where
  -- ValueError: no session key, or no ref
  value_error : Registered
  -- IntegrityError: the session is not stored
  integrity_error : Registered
  row_id : ℕ → Registered

abbrev pub artifact_row : ℕ → String → String → String → String → ℕ → Artifact
artifact_row id session_key role kind ref created_at = record {
  id = id;
  session_key = session_key;
  role = role;
  kind = kind;
  ref = ref;
  created_at = created_at;
  removed_at = none;
}

-- the INSERT, once no open row is found
abbrev insert_artifact : String → String → String → String → ℕ → Store → Store × Registered
insert_artifact session_key role kind ref created_at s =
    let n = next_id (λ (a : Artifact). a.id) s.artifacts in
    if any (λ x. str_eq x.session_key session_key) s.sessions
    then (
      record s {
        artifacts = s.artifacts ++ artifact_row n session_key role kind ref created_at ∷ [];
      },
      row_id n,
    )
    else (s, integrity_error)

abbrev existing_or_insert :
    Option Artifact → String → String → String → String → ℕ → Store → Store × Registered
existing_or_insert (some a) session_key role kind ref created_at s = (s, row_id a.id)
existing_or_insert none session_key role kind ref created_at s =
    insert_artifact session_key role kind ref created_at s

-- created_at or int(time.time())
abbrev pub stamp : ℕ → Option ℕ → ℕ
stamp now none = now
stamp now (some t) = if t == 0 then now else t

-- The texts are the arguments after `str(x or "")`, so an absent one is empty. A kind that is not
-- in ARTIFACT_KINDS is logged, and kept.
unfoldable pub register_artifact :
    ℕ → String → String → String → String → Option ℕ → Store → Store × Registered
register_artifact now session_key role kind ref created_at s =
    let kind_s = non_empty kind "scratch" in
    let ref_s = strip ref in
    let open_row = first_where (is_open_artifact session_key kind_s ref_s) s.artifacts in
    if str_eq session_key "" || str_eq ref_s ""
    then (s, value_error)
    else existing_or_insert open_row session_key (non_empty role "system") kind_s ref_s
        (stamp now created_at) s

-- ORDER BY created_at ASC, id ASC: by id first, then by creation, since rows of one key keep order
unfoldable pub list_artifacts : String → Bool → Store → List Artifact
list_artifacts session_key open_only s =
    sort_by (λ a. a.created_at)
      (sort_by (λ a. a.id)
        (select (λ a. str_eq a.session_key session_key && (not open_only || is_none a.removed_at))
          s.artifacts))

abbrev pub kind_matches : Option String → Artifact → Bool
kind_matches none a = true
kind_matches (some k) a = str_eq k "" || str_eq a.kind k

abbrev pub is_removable : String → String → Option String → Artifact → Bool
is_removable session_key ref kind a =
    str_eq a.session_key session_key
    && str_eq a.ref ref
    && kind_matches kind a
    && is_none a.removed_at

unfoldable pub mark_artifact_removed :
    ℕ → String → String → Option String → Option ℕ → Store → Store × ℕ
mark_artifact_removed now session_key ref kind removed_at s = (
  record s {
    artifacts =
        update_where (is_removable session_key ref kind)
          (λ a. record a { removed_at = some (get_or now removed_at) }) s.artifacts;
  },
  count_where (is_removable session_key ref kind) s.artifacts,
)

unfoldable pub count_open_artifacts : String → Store → ℕ
count_open_artifacts session_key s =
    count_where (λ a. str_eq a.session_key session_key && is_none a.removed_at) s.artifacts
