-- ===== src/Store/Runners/Tier.antt =====
-- What the writes of db.py's `runners` table may move.
use mathlib.Core.Option
use text.Mathlib.TextPositions.{eq_refl}
use code_workflow.Prelude.{
  ℕ, ◌≡◌, ◌≢◌, refl, ap, sym, ◌∙◌, String, Option, none, some, true, false, arith, eq_iff, any,
  get_or, inl, inr, Bool-cases,
}
use code_workflow.Prelude.Tables.{
  count_where, first-update_self, first-update_other, first-append, first-append_other,
  count-update_kept, first_of-delete, first-replace,
}
use code_workflow.Store.Rows.{Store, Runner}
use code_workflow.Store.Runners.{
  is_runner_of, is_hot, count_hot_sessions, delete_runner, get_runner, upsert_runner,
  touch_runner_seen,
}

one_project :
    (j k : String) (r : Runner) → j ≢ k → is_runner_of j r ≡ true → is_runner_of k r ≡ false
one_project j k r ne h = ground (arith, eq_iff r.project_key j, eq_iff r.project_key k)

-- A probe stamps `last_seen_at` and nothing else: tier, endpoint, token and container stay, and so
-- does the number of hot runners, which admission counts.
pub touch_runner_seen_lem :
    (clock : ℕ) (key : String) (now : Option ℕ) (s : Store) {r : Runner}
    → get_runner key s ≡ some r
    → (get_runner key (touch_runner_seen clock key now s).0
        ≡ some (record r { last_seen_at = some (get_or clock now) }))
      × (count_hot_sessions (touch_runner_seen clock key now s).0 ≡ count_hot_sessions s)
unfolding get_runner touch_runner_seen count_hot_sessions
touch_runner_seen_lem clock key now s h =
    let seen = λ (r : Runner). record r { last_seen_at = some (get_or clock now) } in
    (
      first-update_self (is_runner_of key) seen (λ r e. e) s.runners ∙ ap (Option.map seen) h,
      count-update_kept (is_runner_of key) seen is_hot (λ r e. refl) s.runners,
    )

-- After an upsert the project's runner is the one given, its old one is gone, and no other project's
-- runner has moved.
pub upsert_runner_lem :
    (now : ℕ) (key container endpoint token tier other : String) (s : Store)
    → key ≢ other
    → (get_runner key (upsert_runner now key container endpoint token tier s)
        ≡ some (record {
          project_key = key;
          container_id = some container;
          endpoint = some endpoint;
          token = some token;
          tier = tier;
          last_seen_at = some now;
        }))
      × (get_runner other (upsert_runner now key container endpoint token tier s)
          ≡ get_runner other s)
unfolding get_runner upsert_runner
upsert_runner_lem now key container endpoint token tier other s ne =
    let row : Runner = record {
      project_key = key;
      container_id = some container;
      endpoint = some endpoint;
      token = some token;
      tier = tier;
      last_seen_at = some now;
    } in
    let strange : is_runner_of other row ≡ false = ground (arith, eq_iff key other) in
    elim (Bool-cases (any (is_runner_of key) s.runners)) [
      | inl old ↦ rw old (
        first-replace (is_runner_of key) row s.runners (eq_refl key) old,
        first-update_other (is_runner_of key) (λ r. row) (is_runner_of other)
            (λ r h. one_project other key r (λ e. ne (sym e)) h) (λ r h. strange) s.runners,
      )
      | inr new ↦ rw new (
        first-append (is_runner_of key) s.runners row new (eq_refl key),
        first-append_other (is_runner_of other) s.runners row strange,
      )
    ]

-- A deleted runner is gone.
pub delete_runner_gone :
    (key : String) (s : Store)
    → (get_runner key (delete_runner key s).0 ≡ none)
      × ((delete_runner key s).1 ≡ count_where (is_runner_of key) s.runners)
unfolding get_runner delete_runner
delete_runner_gone key s = (first_of-delete (is_runner_of key) s.runners, refl)
