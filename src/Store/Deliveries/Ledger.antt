-- ===== src/Store/Deliveries/Ledger.antt =====
-- Inserting, redelivering and counting in the delivery ledger of db.py.
use mathlib.Core.Path.{subst}
use text.Mathlib.TextPositions.{eq_refl}
use code_workflow.Prelude.{
  ℕ, ◌+◌, ◌≤◌, ◌≡◌, refl, Bool, true, false, ◌||◌, ◌&&◌, Option, List, [], ◌∷◌, ◌++◌, String, arith,
  any, length, if◌then◌else◌, str_eq, eq_iff, leb, inl, inr, Bool-cases,
}
use code_workflow.Prelude.Tables.{
  count_where, update_where, any-append, any-count, count-append, count-update_kept,
}
use code_workflow.Store.Rows.{
  Store, Delivery, DeliveryNode, Status, queued, deferred, routed, done, dropped, empty_store,
}
use code_workflow.Store.Deliveries.{
  NewDelivery, new_row, has_id, has_status, insert_delivery, has_delivery_node, index_nodes,
  payload_nodes, set_delivery_status, defer_delivery, defer_delivery_until, clear_deferred_clocks,
  quarantine_deferred, delivery_count, count_by_status,
}

any-insert_delivery :
    (now : ℕ) (a : NewDelivery) (s : Store)
    → any (has_id a.delivery_id) (insert_delivery now a s).0.deliveries ≡ true
unfolding insert_delivery
any-insert_delivery now a s = elim (Bool-cases (any (has_id a.delivery_id) s.deliveries)) [
  | inl old ↦ rw old old
  | inr new ↦ rw new (
      ground (
        arith,
        any-append (has_id a.delivery_id) s.deliveries (new_row now a ∷ []),
        eq_refl a.delivery_id,
      ))
]

-- What the daemon does to the ledger.
pub data LedgerOp : Type 0 where
  insert : ℕ → NewDelivery → LedgerOp
  set_status : String → Status → LedgerOp
  defer : ℕ → String → LedgerOp
  defer_until : String → ℕ → LedgerOp
  clear_clocks : LedgerOp
  quarantine : Option ℕ → LedgerOp

unfoldable pub ledger_step : LedgerOp → Store → Store
ledger_step (insert now a) s = (insert_delivery now a s).0
ledger_step (set_status id st) s = set_delivery_status id st s
ledger_step (defer now id) s = defer_delivery now id s
ledger_step (defer_until id t) s = defer_delivery_until id t s
ledger_step clear_clocks s = clear_deferred_clocks s
ledger_step (quarantine b) s = (quarantine_deferred b s).0

unfoldable pub ledger_run : Store → List LedgerOp → Store
ledger_run s [] = s
ledger_run s (op ∷ ops) = ledger_run (ledger_step op s) ops

abbrev pub rows_with : String → Store → ℕ
rows_with id s = count_where (has_id id) s.deliveries

insert_delivery-rows_with :
    (now : ℕ) (a : NewDelivery) (s : Store) (id : String)
    → rows_with id (insert_delivery now a s).0 ≡ (
        if str_eq a.delivery_id id && leb (rows_with a.delivery_id s) 0
        then rows_with id s + 1
        else rows_with id s)
unfolding insert_delivery
insert_delivery-rows_with now a s id = ground (
  arith,
  any-count (has_id a.delivery_id) s.deliveries,
  count-append (has_id id) s.deliveries (new_row now a ∷ []),
)

module _ (s : Store) (id : String) (p : Delivery → Bool) (f : Delivery → Delivery) where
  rows_with-update :
      ((d : Delivery) → p d ≡ true → has_id id (f d) ≡ has_id id d)
      → count_where (has_id id) (update_where p f s.deliveries) ≡ rows_with id s
  rows_with-update same = count-update_kept p f (has_id id) same s.deliveries

  -- An UPDATE that leaves the ids alone leaves them as unique as they were.
  update_unique :
      ((d : Delivery) → p d ≡ true → has_id id (f d) ≡ has_id id d)
      → rows_with id s ≤ 1
      → count_where (has_id id) (update_where p f s.deliveries) ≤ 1
  update_unique same h = omega (arith, rows_with-update same)

ledger_step_unique :
    (op : LedgerOp) (s : Store) (id : String)
    → rows_with id s ≤ 1
    → rows_with id (ledger_step op s) ≤ 1
unfolding ledger_step
ledger_step_unique (insert now a) s id h =
    ground (arith, insert_delivery-rows_with now a s id, eq_iff a.delivery_id id)
ledger_step_unique (set_status i st) s id h =
    unfold set_delivery_status in update_unique s id _ _ (λ d e. refl) h
ledger_step_unique (defer now i) s id h =
    unfold defer_delivery in update_unique s id _ _ (λ d e. refl) h
ledger_step_unique (defer_until i t) s id h =
    unfold defer_delivery_until in update_unique s id _ _ (λ d e. refl) h
ledger_step_unique clear_clocks s id h =
    unfold clear_deferred_clocks in update_unique s id _ _ (λ d e. refl) h
ledger_step_unique (quarantine b) s id h =
    unfold quarantine_deferred in update_unique s id _ _ (λ d e. refl) h

ledger_run-unique_from :
    (s : Store) (ops : List LedgerOp) (id : String)
    → rows_with id s ≤ 1
    → rows_with id (ledger_run s ops) ≤ 1
unfolding ledger_run
ledger_run-unique_from s [] id h = h
ledger_run-unique_from s (op ∷ ops) id h =
    ledger_run-unique_from (ledger_step op s) ops id (ledger_step_unique op s id h)

-- From an empty store, whatever operations of the ledger run in whatever order, no delivery id has
-- two rows.
pub ledger_run_unique :
    (ops : List LedgerOp) (id : String) → rows_with id (ledger_run empty_store ops) ≤ 1
ledger_run_unique ops id = ledger_run-unique_from empty_store ops id (omega arith)

-- The counts by status add up to the number of deliveries.
pub count_by_status_total :
    (s : Store)
    → count_by_status s queued
        + count_by_status s deferred
        + count_by_status s routed
        + count_by_status s done
        + count_by_status s dropped
      ≡ delivery_count s
unfolding count_by_status delivery_count
count_by_status_total s = total s.deliveries
  where
    total :
        (ds : List Delivery)
        → count_where (has_status queued) ds
            + count_where (has_status deferred) ds
            + count_where (has_status routed) ds
            + count_where (has_status done) ds
            + count_where (has_status dropped) ds
          ≡ length ds
    total [] = refl
    total (d ∷ ds) = ground (arith, total ds)

has_node : String → List DeliveryNode → Bool
has_node nid nodes = any (λ n. str_eq n.node_id nid) nodes

has_node-index_nodes :
    (ids : List String) (id : String) (now : ℕ) (nodes : List DeliveryNode) (nid : String)
    → has_node nid (index_nodes ids id now nodes)
      ≡ (has_node nid nodes || any (λ i. str_eq i nid) ids)
unfolding index_nodes has_node
has_node-index_nodes [] id now nodes nid = ground arith
has_node-index_nodes (i ∷ ids) id now nodes nid = elim (Bool-cases (has_node i nodes)) [
  | inl old ↦
      let seen : (str_eq i nid ≡ true → has_node nid nodes ≡ true) =
        λ e. subst (λ t. has_node t nodes ≡ true) ((eq_iff i nid).0 e) old in
      rw old (ground (arith, has_node-index_nodes ids id now nodes nid, seen))
  | inr new ↦
      let row : DeliveryNode = record { node_id = i; delivery_id = id; seen_at = now } in
      rw new (
        ground (
          arith,
          has_node-index_nodes ids id now (nodes ++ row ∷ []) nid,
          any-append (λ n. str_eq n.node_id nid) nodes (row ∷ []),
        ))
]

-- After a delivery whose id is new, exactly the nodes known before and those that its body carries
-- are known.
pub has_delivery_node-insert_delivery :
    (now : ℕ) (a : NewDelivery) (s : Store) (nid : String)
    → any (has_id a.delivery_id) s.deliveries ≡ false
    → has_delivery_node nid (insert_delivery now a s).0
      ≡ (has_delivery_node nid s || any (λ i. str_eq i nid) (payload_nodes a.payload))
unfolding has_delivery_node insert_delivery has_node
has_delivery_node-insert_delivery now a s nid new =
    rw new (has_node-index_nodes (payload_nodes a.payload) a.delivery_id now s.delivery_nodes nid)
