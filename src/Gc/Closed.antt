-- ===== src/Gc/Closed.antt =====
-- Which rows of the cleanup ledger agentd/src/agentd/gc.py closes.
use code_workflow.Prelude.{
  String, ◌≡◌, refl, sym, ap, ◌∙◌, ◌⊎◌, inl, inr, Option, none, some, List, [], ◌∷◌, Bool, true,
  false, arith, str_eq, eq_iff, get_or, Bool-cases, Memᴰ, if◌then◌else◌,
}
use mathlib.Core.Path.{subst}
use code_workflow.Prelude.Tables.{update_sound}
use code_workflow.Store.Rows.{Store, Session, Artifact}
use code_workflow.Store.Sessions.{list_sessions}
use code_workflow.Store.Artifacts.{is_removable, list_artifacts, mark_artifact_removed}
use code_workflow.Gc.{Surroundings, GcReport}
use code_workflow.Gc.Collect.{
  ledger_row_is_stale, clone_of, is_spared, sweep_row, sweep_rows, sweep_ledger_of, sweep_ledger,
}

module _ (x : Surroundings) where
  -- A row that was open, whose artifact is gone, by a session of its key.
  pub record IsClosed (sessions : List Session) (old new : Artifact) : Type 0 where
    pub opened : old.removed_at ≡ none
    pub closed : new ≡ record old { removed_at = some x.now }
    pub sess : Session
    pub listed : Memᴰ sess sessions
    pub own : sess.session_key ≡ old.session_key
    pub stale : ledger_row_is_stale x old.kind old.ref (clone_of x sess) ≡ true

  -- A row afterwards, and the row that it was.
  pub record Was (sessions : List Session) (rows : List Artifact) (new : Artifact) : Type 0 where
    pub old : Artifact
    pub stored : Memᴰ old rows
    pub kept : (new ≡ old) ⊎ IsClosed sessions old new

  -- A row that is closed is not closed again.
  kept-then :
      (ss : List Session) (a b c : Artifact)
      → (b ≡ a) ⊎ IsClosed ss a b
      → (c ≡ b) ⊎ IsClosed ss b c
      → (c ≡ a) ⊎ IsClosed ss a c
  kept-then ss a b c (inl p) (inl q) = inl (q ∙ p)
  kept-then ss a b c (inl p) (inr d) = inr (subst (λ t. IsClosed ss t c) p d)
  kept-then ss a b c (inr d) (inl q) = inr (subst (λ t. IsClosed ss a t) (sym q) d)
  kept-then ss a b c (inr d) (inr e) =
      let shut : b.removed_at ≡ some x.now = ap (λ t. t.removed_at) d.closed in
      absurd (cc (shut, e.opened))

  Was-then :
      (ss : List Session) (rows mid : List Artifact) (new : Artifact)
      → ((b : Artifact) → Memᴰ b mid → Was ss rows b)
      → Was ss mid new
      → Was ss rows new
  Was-then ss rows mid new before after =
      let w = before after.old after.stored in
      record {
        old = w.old;
        stored = w.stored;
        kept = kept-then ss w.old after.old new w.kept after.kept;
      }

  Was-refl : (ss : List Session) (rows : List Artifact) (a : Artifact) → Memᴰ a rows → Was ss rows a
  Was-refl ss rows a m = record { old = a; stored = m; kept = inl refl }

  named_kind :
      (kind ref : String) (clone : Option String)
      → ledger_row_is_stale x kind ref clone ≡ true
      → str_eq kind "" ≡ false
  unfolding ledger_row_is_stale
  named_kind kind ref clone stale = elim (Bool-cases (str_eq kind "")) [
    | inr e ↦ e
    | inl e ↦
        cc (subst (λ k. ledger_row_is_stale x k ref clone ≡ true) ((eq_iff kind "").0 e) stale)
  ]

  -- One artifact of the ledger marked as removed.
  marked-Was :
      (ss : List Session) (sess : Session) (a : Artifact) (s : Store)
      → Memᴰ sess ss
      → ledger_row_is_stale x a.kind a.ref (clone_of x sess) ≡ true
      → (b : Artifact)
      → Memᴰ b
          (mark_artifact_removed x.now sess.session_key a.ref
            (some a.kind)
            (some x.now)
            s).0.artifacts
      → Was ss s.artifacts b
  unfolding mark_artifact_removed
  marked-Was ss sess a s m stale b mb =
      let (old, stored, became) =
        update_sound (is_removable sess.session_key a.ref (some a.kind))
          (λ t. record t { removed_at = some (get_or x.now (some x.now)) }) s.artifacts mb in
      elim (Bool-cases (is_removable sess.session_key a.ref (some a.kind) old)) [
        | inr miss ↦ record { old = old; stored = stored; kept = inl (rw miss at became) }
        | inl hit ↦
            let named = named_kind a.kind a.ref (clone_of x sess) stale in
            let key : old.session_key ≡ sess.session_key =
              ground (arith, hit, eq_iff old.session_key sess.session_key) in
            let ref : old.ref ≡ a.ref = ground (arith, hit, eq_iff old.ref a.ref) in
            let kind : old.kind ≡ a.kind = ground (arith, hit, named, eq_iff old.kind a.kind) in
            record {
              old = old;
              stored = stored;
              kept = inr (record {
                opened = ground (arith, hit);
                closed = rw hit at became;
                sess = sess;
                listed = m;
                own = sym key;
                stale = rw (kind, ref) stale;
              });
            }
      ]

  row-Was :
      (dry_run : Bool) (ss : List Session) (sess : Session) (a : Artifact) (rs : GcReport × Store)
      → Memᴰ sess ss
      → is_spared x sess a ≡ false
      → (b : Artifact) → Memᴰ b (sweep_row x dry_run sess a rs).1.artifacts
      → Was ss rs.1.artifacts b
  unfolding sweep_row
  row-Was true ss sess a (r, s) m gone b mb = Was-refl ss s.artifacts b mb
  row-Was false ss sess a (r, s) m gone b mb =
      let stale : ledger_row_is_stale x a.kind a.ref (clone_of x sess) ≡ true =
        unfold is_spared in ground (arith, gone) in
      marked-Was ss sess a s m stale b mb

  module _ (dry_run : Bool) (ss : List Session) where
    abbrev next_row : Session → Artifact → GcReport × Store → GcReport × Store
    next_row sess a rs = if is_spared x sess a then rs else sweep_row x dry_run sess a rs

    next_row-Was :
        (sess : Session) (a : Artifact) (rs : GcReport × Store)
        → Memᴰ sess ss
        → (b : Artifact) → Memᴰ b (next_row sess a rs).1.artifacts
        → Was ss rs.1.artifacts b
    next_row-Was sess a rs m b mb = elim (Bool-cases (is_spared x sess a)) [
      | inl spared ↦ Was-refl ss rs.1.artifacts b (rw spared at mb)
      | inr gone ↦ row-Was dry_run ss sess a rs m gone b (rw gone at mb)
    ]

    sweep_rows-Was :
        (sess : Session) (arts : List Artifact) (rs : GcReport × Store)
        → Memᴰ sess ss
        → (b : Artifact) → Memᴰ b (sweep_rows x dry_run sess arts rs).1.artifacts
        → Was ss rs.1.artifacts b
    unfolding sweep_rows
    sweep_rows-Was sess [] rs m b mb = Was-refl ss rs.1.artifacts b mb
    sweep_rows-Was sess (a ∷ arts) rs m b mb =
        Was-then ss rs.1.artifacts (next_row sess a rs).1.artifacts b (next_row-Was sess a rs m)
          (sweep_rows-Was sess arts (next_row sess a rs) m b mb)

    abbrev next_session : Session → GcReport × Store → GcReport × Store
    next_session sess rs =
        if str_eq sess.session_key ""
        then rs
        else sweep_rows x dry_run sess (list_artifacts sess.session_key true rs.1) rs

    next_session-Was :
        (sess : Session) (rs : GcReport × Store)
        → Memᴰ sess ss
        → (b : Artifact) → Memᴰ b (next_session sess rs).1.artifacts
        → Was ss rs.1.artifacts b
    next_session-Was sess rs m b mb = elim (Bool-cases (str_eq sess.session_key "")) [
      | inl e ↦ Was-refl ss rs.1.artifacts b (rw e at mb)
      | inr e ↦ sweep_rows-Was sess (list_artifacts sess.session_key true rs.1) rs m b (rw e at mb)
    ]

    sweep_ledger_of-Was :
        (todo : List Session) (rs : GcReport × Store)
        → ((sess : Session) → Memᴰ sess todo → Memᴰ sess ss)
        → (b : Artifact) → Memᴰ b (sweep_ledger_of x dry_run todo rs).1.artifacts
        → Was ss rs.1.artifacts b
    unfolding sweep_ledger_of
    sweep_ledger_of-Was [] rs within b mb = Was-refl ss rs.1.artifacts b mb
    sweep_ledger_of-Was (sess ∷ todo) rs within b mb =
        Was-then ss rs.1.artifacts (next_session sess rs).1.artifacts b
          (next_session-Was sess rs (within sess (Memᴰ.head refl)))
          (sweep_ledger_of-Was todo (next_session sess rs) (λ y m. within y (Memᴰ.tail m)) b mb)

  -- After a sweep of the ledger each row is as it was, or it was open and has been closed now: then its
  -- artifact was gone, by the clone of a session with its key. A row whose artifact is still there is
  -- never closed.
  pub sweep_ledger-Was :
      (dry_run : Bool) (r : GcReport) (s : Store) (b : Artifact)
      → Memᴰ b (sweep_ledger x dry_run (r, s)).1.artifacts
      → Was (list_sessions s) s.artifacts b
  unfolding sweep_ledger
  sweep_ledger-Was dry_run r s b mb =
      sweep_ledger_of-Was dry_run (list_sessions s) (list_sessions s) (r, s) (λ sess m. m) b mb
