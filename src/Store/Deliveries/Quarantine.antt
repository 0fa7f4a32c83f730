-- ===== src/Store/Deliveries/Quarantine.antt =====
-- The one-shot purge of the deferred backlog in db.py.
use code_workflow.Prelude.{ℕ, ◌+◌, ◌≡◌, refl, true, false, Option, none, some, arith}
use code_workflow.Prelude.Tables.{
  count-update_cleared, count-update_kept, count-update_moved, length-update,
}
use code_workflow.Store.Rows.{Store, Delivery, queued, deferred, routed, done, dropped}
use code_workflow.Store.Deliveries.{
  has_status, deferred_before, count_deferred, quarantine_deferred, count_by_status, delivery_count,
}

deferred_before_of :
    (b : Option ℕ) (d : Delivery) → deferred_before b d ≡ true → d.status ≡ deferred
deferred_before_of none d h = ground arith
deferred_before_of (some t) d h = ground arith

cleared : (b : Option ℕ) (d : Delivery) → deferred_before b (record d { status = dropped }) ≡ false
cleared none d = refl
cleared (some t) d = refl

-- The purge reports as many rows as were deferred within its bound, leaves none of these deferred,
-- drops exactly as many, and changes neither the number of deliveries nor of those queued, routed
-- or done.
pub quarantine_deferred_lem :
    (b : Option ℕ) (s : Store)
    → ((quarantine_deferred b s).1 ≡ count_deferred b s)
      × (count_deferred b (quarantine_deferred b s).0 ≡ 0)
      × (count_by_status (quarantine_deferred b s).0 dropped
          ≡ count_by_status s dropped + count_deferred b s)
      × (delivery_count (quarantine_deferred b s).0 ≡ delivery_count s)
      × (count_by_status (quarantine_deferred b s).0 queued ≡ count_by_status s queued)
      × (count_by_status (quarantine_deferred b s).0 routed ≡ count_by_status s routed)
      × (count_by_status (quarantine_deferred b s).0 done ≡ count_by_status s done)
unfolding quarantine_deferred count_deferred count_by_status delivery_count
quarantine_deferred_lem b s = (
  refl,
  count-update_cleared (deferred_before b) _ (cleared b) s.deliveries,
  count-update_moved (deferred_before b) _ (has_status dropped)
      (λ d h. rw (deferred_before_of b d h)) (λ d. refl) s.deliveries,
  length-update (deferred_before b) _ s.deliveries,
  count-update_kept (deferred_before b) _ (has_status queued) (λ d h. rw (deferred_before_of b d h))
      s.deliveries,
  count-update_kept (deferred_before b) _ (has_status routed) (λ d h. rw (deferred_before_of b d h))
      s.deliveries,
  count-update_kept (deferred_before b) _ (has_status done) (λ d h. rw (deferred_before_of b d h))
      s.deliveries,
)
