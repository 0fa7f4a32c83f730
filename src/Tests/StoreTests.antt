-- ===== src/Tests/StoreTests.antt =====
-- agentd/src/agentd/db.py on a small store.
use code_workflow.Prelude.{◌+◌, ◌≤◌, ◌≡◌, refl, none, some, List, [], ◌∷◌, Memᴰ}
use code_workflow.Payload.{Envelope}
use code_workflow.Store.Rows.{Store, Delivery, empty_store, queued, deferred, routed, done, dropped}
use code_workflow.Store.Deliveries.{
  NewDelivery, list_deferred, defer_delivery, backoff, count_deferred, quarantine_deferred,
  count_by_status, delivery_count,
}
use code_workflow.Store.Deliveries.Ledger.{LedgerOp, ledger_run, rows_with, ledger_run_unique}
use code_workflow.Store.Deliveries.Clock.{backoff_bounds}
use code_workflow.Store.Deliveries.Quarantine.{quarantine_deferred_lem}

abbrev a_body : Envelope
a_body = record {
  comment_node = some "C1";
  review_node = none;
  pull_request_node = none;
  issue_node = some "I1";
  issue_association = some "OWNER";
  association = none;
  issue_labels = [];
  label = none;
}

abbrev a_delivery : NewDelivery
a_delivery = record {
  delivery_id = "d1";
  event = "issue_comment";
  action = some "created";
  repo = some "o/r";
  issue_num = some 7;
  sender = some "alice";
  payload = some a_body;
  status = queued;
}

abbrev four_ops : List LedgerOp
four_ops =
    LedgerOp.insert 1 a_delivery
    ∷ LedgerOp.set_status "d1" deferred
    ∷ LedgerOp.insert 2 a_delivery
    ∷ LedgerOp.quarantine none
    ∷ []

ledger_run-unique_example : rows_with "d1" (ledger_run empty_store four_ops) ≤ 1
ledger_run-unique_example = ledger_run_unique four_ops "d1"

abbrev a_row : Delivery
a_row = record {
  delivery_id = "d1";
  event = "issue_comment";
  action = some "created";
  repo = "o/r";
  issue_num = some 7;
  sender = "alice";
  received_at = 10;
  payload = some a_body;
  status = deferred;
  next_attempt_at = 0;
  defer_count = 0;
}

abbrev two_rows : Store
two_rows = record empty_store {
  deliveries = a_row ∷ record a_row { delivery_id = "d2"; received_at = 12 } ∷ [];
}

d1_is_listed : Memᴰ a_row (list_deferred 20 5 two_rows)
unfolding list_deferred
d1_is_listed = Memᴰ.head refl

d2_is_listed :
    Memᴰ
      (record a_row { delivery_id = "d2"; received_at = 12 })
      (list_deferred 22 5 (defer_delivery 20 "d1" two_rows))
unfolding list_deferred defer_delivery backoff
d2_is_listed = Memᴰ.head refl

backoff_bounds_example : (5 ≤ backoff 9) × (backoff 9 ≤ 300) × (backoff 9 ≤ backoff 10)
backoff_bounds_example = backoff_bounds 9

quarantine_deferred_example :
    ((quarantine_deferred (some 11) two_rows).1 ≡ count_deferred (some 11) two_rows)
    × (count_deferred (some 11) (quarantine_deferred (some 11) two_rows).0 ≡ 0)
    × (count_by_status (quarantine_deferred (some 11) two_rows).0 dropped
        ≡ count_by_status two_rows dropped + count_deferred (some 11) two_rows)
    × (delivery_count (quarantine_deferred (some 11) two_rows).0 ≡ delivery_count two_rows)
    × (count_by_status (quarantine_deferred (some 11) two_rows).0 queued
        ≡ count_by_status two_rows queued)
    × (count_by_status (quarantine_deferred (some 11) two_rows).0 routed
        ≡ count_by_status two_rows routed)
    × (count_by_status (quarantine_deferred (some 11) two_rows).0 done
        ≡ count_by_status two_rows done)
quarantine_deferred_example = quarantine_deferred_lem (some 11) two_rows
