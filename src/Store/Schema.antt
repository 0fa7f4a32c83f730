-- ===== src/Store/Schema.antt =====
-- `_apply_schema` of db.py: which migrations run on a database, by its `user_version`.
use code_workflow.Prelude.{
  ℕ, zero, suc, ◌+◌, ◌≤◌, ◌≡◌, refl, Option, none, some, List, [], ◌∷◌, ◌++◌, Bool, true, false,
  arith, ◌==◌, ltb, if◌then◌else◌, any,
}

abbrev pub schema_version : ℕ
schema_version = 11

-- `create` is `executescript(SCHEMA)`, `migrate n` is the method from version n to n + 1, and
-- `rebuild` drops every table, the delivery ledger included.
pub data SchemaAction : Type 0 where
  create rebuild : SchemaAction
  migrate : ℕ → SchemaAction

abbrev pub is_rebuild : SchemaAction → Bool
is_rebuild rebuild = true
is_rebuild create = false
is_rebuild (migrate n) = false

-- One `if ver == k: self._migrate_…(); ver = k + 1`.
abbrev pub migrate_at : ℕ → List SchemaAction × ℕ → List SchemaAction × ℕ
migrate_at k (actions, ver) =
    if ver == k then (actions ++ migrate k ∷ [], k + 1) else (actions, ver)

-- the incremental chain
abbrev pub migrate_chain : ℕ → List SchemaAction × ℕ
migrate_chain ver = migrate_at 10 (
    migrate_at 9 (
      migrate_at 8 (
        migrate_at 7 (
          migrate_at 6
            (migrate_at 5 (migrate_at 4 (migrate_at 3 (migrate_at 2 (migrate_at 1 ([], ver))))))))))

abbrev finish_chain : List SchemaAction × ℕ → List SchemaAction × ℕ
finish_chain (actions, ver) =
    if ver == schema_version then (actions, ver) else (actions ++ rebuild ∷ [], schema_version)

-- The actions that run, and the version that the database has afterwards; `none` is the
-- RuntimeError of a database that is newer than the program.
unfoldable pub apply_schema : ℕ → Option (List SchemaAction × ℕ)
apply_schema ver =
    if ver == schema_version
    then some (create ∷ [], ver)
    else if ver == 0
    then some (create ∷ [], schema_version)
    else if ltb schema_version ver
    then none
    else some (finish_chain (migrate_chain ver))

abbrev pub Upgraded : Option (List SchemaAction × ℕ) → Type 0
Upgraded none = ⊥
Upgraded (some (actions, ver)) = (ver ≡ schema_version) × (any is_rebuild actions ≡ false)

-- Every database of this version or an older one is brought to this version by migrations that
-- keep the ledger: the destructive rebuild never runs.
pub apply_schema_upgrades : (ver : ℕ) → ver ≤ schema_version → Upgraded (apply_schema ver)
unfolding apply_schema
apply_schema_upgrades zero h = (refl, refl)
apply_schema_upgrades (suc zero) h = (refl, refl)
apply_schema_upgrades (suc (suc zero)) h = (refl, refl)
apply_schema_upgrades (suc (suc (suc zero))) h = (refl, refl)
apply_schema_upgrades (suc (suc (suc (suc zero)))) h = (refl, refl)
apply_schema_upgrades (suc (suc (suc (suc (suc zero))))) h = (refl, refl)
apply_schema_upgrades (suc (suc (suc (suc (suc (suc zero)))))) h = (refl, refl)
apply_schema_upgrades (suc (suc (suc (suc (suc (suc (suc zero))))))) h = (refl, refl)
apply_schema_upgrades (suc (suc (suc (suc (suc (suc (suc (suc zero)))))))) h = (refl, refl)
apply_schema_upgrades (suc (suc (suc (suc (suc (suc (suc (suc (suc zero))))))))) h = (refl, refl)
apply_schema_upgrades (suc (suc (suc (suc (suc (suc (suc (suc (suc (suc zero)))))))))) h =
    (refl, refl)
apply_schema_upgrades (suc (suc (suc (suc (suc (suc (suc (suc (suc (suc (suc zero))))))))))) h =
    (refl, refl)
apply_schema_upgrades (suc (suc (suc (suc (suc (suc (suc (suc (suc (suc (suc (suc n)))))))))))) h =
    absurd (omega arith)
