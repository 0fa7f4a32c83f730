-- ===== src/Dispatcher/Drain.antt =====
-- What a pass of dispatcher.py leaves in the queue.
use code_workflow.Prelude.{
  ℕ, ◌+◌, ◌≤◌, ◌≡◌, refl, ap, none, List, [], ◌∷◌, true, false, arith, eq_iff, any, Bool-cases,
  Memᴰ, length, take_of_length-le, inl, inr,
}
use mathlib.Core.List.Memᴰ
use code_workflow.Prelude.Tables.{
  select, sort_by, count_where, select_complete, update_sound, sort_by_complete, length-sort_by,
  length-select,
}
use code_workflow.Store.Rows.{Store, Delivery, queued}
use code_workflow.Store.Deliveries.{
  has_id, has_status, list_queued, set_delivery_status, queue_depth,
}
use code_workflow.Store.Breaker.{is_disk_paused}
use code_workflow.Intake.{Config}
use code_workflow.Dispatcher.{handled_status, handle, handle_rows, drain_once}

-- Every queued row has the id of one of the rows still to handle.
abbrev Covered : List Delivery → Store → Type 0
Covered rows s =
    (d : Delivery)
    → Memᴰ d s.deliveries
    → has_status queued d ≡ true
    → any (λ r. has_id r.delivery_id d) rows ≡ true

handled_not_queued :
    (config : Config) (row d : Delivery)
    → has_status queued (record d { status = handled_status config row }) ≡ false
unfolding handled_status
handled_not_queued config row d = ground arith

handle-Covered :
    (config : Config) (row : Delivery) (rows : List Delivery) (s : Store)
    → Covered (row ∷ rows) s
    → Covered rows (handle config row s)
unfolding handle set_delivery_status
handle-Covered config row rows s covered d m q =
    let (b, mb, same) = update_sound (has_id row.delivery_id) _ s.deliveries m in
    elim (Bool-cases (has_id row.delivery_id b)) [
      | inl e ↦ absurd (
          let unchanged = (rw e at same) in
          ground (arith, handled_not_queued config row b, rw unchanged at q))
      | inr e ↦
          let unchanged = (rw e at same) in
          let c = covered b mb (rw unchanged at q) in rw unchanged (rw e at c)
    ]

handle_rows-Covered :
    (config : Config) (n : ℕ) (rows : List Delivery) (s : Store)
    → is_disk_paused s ≡ false
    → Covered rows s
    → Covered [] (handle_rows config (λ k. false) n rows s).0
      × (is_disk_paused (handle_rows config (λ k. false) n rows s).0 ≡ false)
      × ((handle_rows config (λ k. false) n rows s).1 ≡ n + length rows)
unfolding handle_rows is_disk_paused handle set_delivery_status
handle_rows-Covered config n [] s running covered = (covered, running, omega arith)
handle_rows-Covered config n (row ∷ rows) s running covered =
    let (c, r, k) =
      handle_rows-Covered config (n + 1) rows (handle config row s) running
        (handle-Covered config row rows s covered) in
    rw running (c, r, omega (arith, k))

any-mem :
    (d : Delivery) (rows : List Delivery)
    → Memᴰ d rows
    → any (λ r. has_id r.delivery_id d) rows ≡ true
any-mem d [] m = absurd (Memᴰ.not-nil m)
any-mem d (r ∷ rows) (Memᴰ.head q) =
    let same = (eq_iff d.delivery_id r.delivery_id).1 (ap (λ x. x.delivery_id) q) in rw same refl
any-mem d (r ∷ rows) (Memᴰ.tail m) = ground (arith, any-mem d rows m)

count_of_none :
    (rows : List Delivery)
    → ((d : Delivery) → Memᴰ d rows → has_status queued d ≡ false)
    → count_where (has_status queued) rows ≡ 0
count_of_none [] h = refl
count_of_none (r ∷ rows) h =
    rw (h r (Memᴰ.head refl)) (count_of_none rows (λ d m. h d (Memᴰ.tail m)))

none_queued :
    (s : Store) → Covered [] s → (d : Delivery) → Memᴰ d s.deliveries → has_status queued d ≡ false
none_queued s covered d m = elim (Bool-cases (has_status queued d)) [
  | inl e ↦ absurd (cc (covered d m e))
  | inr e ↦ e
]

-- While the breaker is closed and nothing stops it, a pass without a session loop over a queue of at
-- most a hundred rows leaves none queued, the breaker closed, and counts each row once.
pub drain_once-queue_depth :
    (config : Config) (s : Store)
    → is_disk_paused s ≡ false
    → queue_depth s ≤ 100
    → (queue_depth (drain_once config (λ k. false) none s).0 ≡ 0)
      × (is_disk_paused (drain_once config (λ k. false) none s).0 ≡ false)
      × ((drain_once config (λ k. false) none s).1 ≡ queue_depth s)
unfolding drain_once queue_depth list_queued
drain_once-queue_depth config s running few =
    let rows = select (has_status queued) s.deliveries in
    let ordered = sort_by (λ d. d.received_at) rows in
    let n = length-sort_by (λ d. d.received_at) rows in
    let m = length-select (has_status queued) s.deliveries in
    let whole = take_of_length-le 100 ordered (ground (arith, n, m)) in
    let (c, r, k) = handle_rows-Covered config 0 ordered s running (λ d mem q. any-mem d ordered (
      sort_by_complete (λ d. d.received_at) rows
        (select_complete (has_status queued) s.deliveries mem q))) in
    rw (running, whole)
      (
        count_of_none _ (none_queued (handle_rows config (λ k. false) 0 ordered s).0 c),
        r,
        omega (arith, k, n, m),
      )
