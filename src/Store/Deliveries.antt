-- ===== src/Store/Deliveries.antt =====
-- The delivery ledger of db.py: `deliveries` and `delivery_nodes`.
pub mod Ledger
pub mod Clock
pub mod Quarantine
use code_workflow.Prelude.{
  ℕ, zero, suc, ◌+◌, ◌*◌, ◌^◌, String, Option, none, some, List, [], ◌∷◌, ◌++◌, Bool, true, false,
  not, ◌&&◌, ◌==◌, ltb, leb, if◌then◌else◌, str_eq, take, any, length, get_or,
}
use code_workflow.Prelude.Tables.{select, count_where, update_where, sort_by}
use code_workflow.Payload.{Payload, Envelope}
use code_workflow.Store.Rows.{
  Store, Delivery, DeliveryNode, Status, queued, deferred, dropped, status_eq,
}

abbrev pub has_id : String → Delivery → Bool
has_id id d = str_eq d.delivery_id id

abbrev pub has_status : Status → Delivery → Bool
has_status st d = status_eq d.status st

abbrev push : Option String → List String → List String
push none ids = ids
push (some id) ids = id ∷ ids

unfoldable pub node_ids_from_payload : Envelope → List String
node_ids_from_payload e =
    push e.comment_node (push e.review_node (push e.pull_request_node (push e.issue_node [])))

-- INSERT OR IGNORE for each node id: the first delivery that carries an object keeps it.
unfoldable pub index_nodes : List String → String → ℕ → List DeliveryNode → List DeliveryNode
index_nodes [] delivery_id seen_at nodes = nodes
index_nodes (nid ∷ rest) delivery_id seen_at nodes = index_nodes rest delivery_id seen_at (
    if any (λ n. str_eq n.node_id nid) nodes
    then nodes
    else nodes ++ record { node_id = nid; delivery_id = delivery_id; seen_at = seen_at } ∷ [])

-- a body that does not parse indexes nothing
abbrev pub payload_nodes : Payload → List String
payload_nodes none = []
payload_nodes (some e) = node_ids_from_payload e

-- The arguments of `insert_delivery`.
pub record NewDelivery : Type 0 where
  pub delivery_id : String
  pub event : String
  pub action : Option String
  pub repo : Option String
  pub issue_num : Option ℕ
  pub sender : Option String
  pub payload : Payload
  pub status : Status

abbrev pub new_row : ℕ → NewDelivery → Delivery
new_row now a = record {
  delivery_id = a.delivery_id;
  event = a.event;
  action = a.action;
  repo = get_or "" a.repo;
  issue_num = a.issue_num;
  sender = get_or "" a.sender;
  received_at = now;
  payload = a.payload;
  status = a.status;
  next_attempt_at = 0;
  defer_count = 0;
}

unfoldable pub insert_delivery : ℕ → NewDelivery → Store → Store × Bool
unfolding index_nodes node_ids_from_payload
insert_delivery now a s = if any (has_id a.delivery_id) s.deliveries then (s, false) else (
  record s {
    deliveries = s.deliveries ++ new_row now a ∷ [];
    delivery_nodes = index_nodes (payload_nodes a.payload) a.delivery_id now s.delivery_nodes;
  },
  true,
)

unfoldable pub has_delivery_node : String → Store → Bool
has_delivery_node node_id s = any (λ n. str_eq n.node_id node_id) s.delivery_nodes

unfoldable pub list_queued : ℕ → Store → List Delivery
list_queued limit s =
    take limit (sort_by (λ d. d.received_at) (select (has_status queued) s.deliveries))

unfoldable pub set_delivery_status : String → Status → Store → Store
set_delivery_status delivery_id status s = record s {
  deliveries = update_where (has_id delivery_id) (λ d. record d { status = status }) s.deliveries;
}

unfoldable pub queue_depth : Store → ℕ
queue_depth s = count_where (has_status queued) s.deliveries

unfoldable pub delivery_count : Store → ℕ
delivery_count s = length s.deliveries

-- The dictionary as a function: a status that no row has is an absent key, and reads as 0.
unfoldable pub count_by_status : Store → Status → ℕ
count_by_status s status = count_where (has_status status) s.deliveries

abbrev pub in_window : String → ℕ → ℕ → Delivery → Bool
in_window repo after through d =
    str_eq d.repo repo && (ltb after d.received_at && leb d.received_at through)

unfoldable pub deliveries_in_window : String → ℕ → ℕ → Store → List Delivery
deliveries_in_window repo after through s =
    sort_by (λ d. d.received_at) (select (in_window repo after through) s.deliveries)

abbrev pub is_eligible : ℕ → Delivery → Bool
is_eligible now d = has_status deferred d && leb d.next_attempt_at now

unfoldable pub list_deferred : ℕ → ℕ → Store → List Delivery
list_deferred now limit s =
    take limit (sort_by (λ d. d.received_at) (select (is_eligible now) s.deliveries))

-- CASE WHEN defer_count >= 6 THEN 300 ELSE 5 * (1 << defer_count) END
unfoldable pub backoff : ℕ → ℕ
backoff n = if leb 6 n then 300 else 5 * 2 ^ n

unfoldable pub defer_delivery : ℕ → String → Store → Store
defer_delivery now delivery_id s = record s {
  deliveries =
      update_where (has_id delivery_id)
        (λ d. record d {
          next_attempt_at = now + backoff d.defer_count;
          defer_count = d.defer_count + 1;
        })
        s.deliveries;
}

unfoldable pub defer_delivery_until : String → ℕ → Store → Store
defer_delivery_until delivery_id next_attempt_at s = record s {
  deliveries =
      update_where (has_id delivery_id)
        (λ d. record d { next_attempt_at = next_attempt_at; defer_count = d.defer_count + 1 })
        s.deliveries;
}

unfoldable pub clear_deferred_clocks : Store → Store
clear_deferred_clocks s = record s {
  deliveries =
      update_where (has_status deferred) (λ d. record d { next_attempt_at = 0; defer_count = 0 })
        s.deliveries;
}

-- status = 'deferred' AND received_at < ?, the second part only with a bound
abbrev pub deferred_before : Option ℕ → Delivery → Bool
deferred_before none d = has_status deferred d
deferred_before (some t) d = has_status deferred d && ltb d.received_at t

unfoldable pub count_deferred : Option ℕ → Store → ℕ
count_deferred before_received_at s = count_where (deferred_before before_received_at) s.deliveries

unfoldable pub quarantine_deferred : Option ℕ → Store → Store × ℕ
quarantine_deferred before_received_at s = (
  record s {
    deliveries =
        update_where (deferred_before before_received_at) (λ d. record d { status = dropped })
          s.deliveries;
  },
  count_where (deferred_before before_received_at) s.deliveries,
)

abbrev pub is_listed : String → List ℕ → Delivery → Bool
is_listed repo nums d =
    str_eq d.repo repo && elim d.issue_num [ none ↦ false | some n ↦ any (λ m. n == m) nums ]

-- an empty list returns before the query
unfoldable pub list_deliveries_for : String → List ℕ → Store → List Delivery
list_deliveries_for repo [] s = []
list_deliveries_for repo (n ∷ nums) s =
    sort_by (λ d. d.received_at) (select (is_listed repo (n ∷ nums)) s.deliveries)
