-- ===== src/Store/Deliveries/Clock.antt =====
-- The retry clock of db.py's deferred deliveries, and the windows of turns.
use code_workflow.Prelude.{
  ℕ, zero, suc, ◌+◌, ◌≤◌, ◌<◌, ◌≡◌, refl, true, false, List, [], ◌∷◌, Memᴰ, String, arith, length,
  eq_iff, leb, sym, ap, ◌∙◌, inl, inr, Bool-cases, take_of_length-le,
}
use code_workflow.Prelude.Tables.{
  select, count_where, update_where, sort_by, select_sound, select_complete, sort_by_sound,
  sort_by_complete, take_sound, update_sound, count_split, length-select, length-sort_by,
}
use code_workflow.Store.Rows.{Store, Delivery, deferred}
use code_workflow.Store.Deliveries.{
  has_id, has_status, is_eligible, in_window, backoff, list_deferred, defer_delivery,
  clear_deferred_clocks, deliveries_in_window,
}

-- The wait of a deferral is at least 5 s and at most 300 s, and never shrinks with the count.
pub backoff_bounds : (n : ℕ) → (5 ≤ backoff n) × (backoff n ≤ 300) × (backoff n ≤ backoff (suc n))
unfolding backoff
backoff_bounds zero = omega arith
backoff_bounds (suc zero) = omega arith
backoff_bounds (suc (suc zero)) = omega arith
backoff_bounds (suc (suc (suc zero))) = omega arith
backoff_bounds (suc (suc (suc (suc zero)))) = omega arith
backoff_bounds (suc (suc (suc (suc (suc zero))))) = omega arith
backoff_bounds (suc (suc (suc (suc (suc (suc n)))))) =
    let at_cap : leb 6 (suc (suc (suc (suc (suc (suc n)))))) ≡ true = ground arith in
    let past_cap : leb 6 (suc (suc (suc (suc (suc (suc (suc n))))))) ≡ true = ground arith in
    rw (at_cap, past_cap) (omega arith)

-- The drain picks a delivery only if it is stored, deferred and due.
pub list_deferred_sound :
    (now limit : ℕ) (s : Store) {d : Delivery}
    → Memᴰ d (list_deferred now limit s)
    → Memᴰ d s.deliveries × (has_status deferred d ≡ true) × (d.next_attempt_at ≤ now)
unfolding list_deferred
list_deferred_sound now limit s m =
    let picked =
      select_sound (is_eligible now) s.deliveries
        (sort_by_sound (λ d. d.received_at) _ (take_sound limit _ m)) in
    (picked.0, ground (arith, picked.1), ground (arith, picked.1))

-- a row with the id that is deferred again
deferred_again :
    (now : ℕ) (id : String) (s : Store) {d : Delivery}
    → Memᴰ d (defer_delivery now id s).deliveries
    → has_id id d ≡ true
    → (now + 5 ≤ d.next_attempt_at) × (d.next_attempt_at ≤ now + 300)
unfolding defer_delivery
deferred_again now id s m h =
    let (b, old, q) = update_sound (has_id id) _ s.deliveries m in
    elim (Bool-cases (has_id id b)) [
      | inl e ↦
          let q' = rw e at q in
          let wait = backoff_bounds b.defer_count in
          (
            rw (ap (λ d. d.next_attempt_at) q') (omega (arith, wait)),
            rw (ap (λ d. d.next_attempt_at) q') (omega (arith, wait)),
          )
      | inr e ↦ absurd (cc (sym h ∙ ap (has_id id) (rw e at q) ∙ e))
    ]

-- A delivery that is deferred at `now` is not picked before `now` + 5.
pub deferred_not_listed :
    (now later limit : ℕ) (id : String) (s : Store) {d : Delivery}
    → later < now + 5
    → Memᴰ d (list_deferred later limit (defer_delivery now id s))
    → has_id id d ≡ false
deferred_not_listed now later limit id s {d} soon m =
    let picked = list_deferred_sound later limit (defer_delivery now id s) m in
    elim (Bool-cases (has_id id d)) [
      | inl e ↦ absurd (omega (arith, (deferred_again now id s picked.0 e).0, picked.2))
      | inr e ↦ e
    ]

count-eligible :
    (t : ℕ) (ds : List Delivery)
    → count_where (is_eligible t) (
        update_where
          (has_status deferred)
          (λ d. record d { next_attempt_at = 0; defer_count = 0 })
          ds)
      ≡ count_where (has_status deferred) ds
count-eligible t [] = refl
count-eligible t (d ∷ ds) = ground (arith, count-eligible t ds)

-- After a restart clears the clocks, every deferred delivery is due, at any time, and no other is.
pub clear_deferred_clocks-due :
    (t : ℕ) (s : Store)
    → count_where (is_eligible t) (clear_deferred_clocks s).deliveries
      ≡ count_where (has_status deferred) s.deliveries
unfolding clear_deferred_clocks
clear_deferred_clocks-due t s = count-eligible t s.deliveries

-- A deferred delivery that is due is among those picked, if the limit is at least the number of
-- deliveries that are due.
list_deferred_complete :
    (now limit : ℕ) (s : Store) {d : Delivery}
    → count_where (is_eligible now) s.deliveries ≤ limit
    → Memᴰ d s.deliveries
    → is_eligible now d ≡ true
    → Memᴰ d (list_deferred now limit s)
unfolding list_deferred
list_deferred_complete now limit s enough m e =
    let due = select (is_eligible now) s.deliveries in
    let ordered = sort_by (λ d. d.received_at) due in
    rw
      (take_of_length-le limit ordered (
        omega (
          arith,
          length-sort_by (λ d. d.received_at) due,
          length-select (is_eligible now) s.deliveries,
        )))
      (sort_by_complete (λ d. d.received_at) due
        (select_complete (is_eligible now) s.deliveries m e))

length-deliveries_in_window :
    (repo : String) (a b : ℕ) (s : Store)
    → length (deliveries_in_window repo a b s) ≡ count_where (in_window repo a b) s.deliveries
unfolding deliveries_in_window
length-deliveries_in_window repo a b s =
    length-sort_by (λ d. d.received_at) (select (in_window repo a b) s.deliveries)
    ∙ length-select (in_window repo a b) s.deliveries

-- For a ≤ b ≤ c, the window (a, c] of a repository holds as many deliveries as the windows (a, b]
-- and (b, c] together.
pub deliveries_in_window_split :
    (repo : String) (a b c : ℕ) (s : Store)
    → a ≤ b
    → b ≤ c
    → length (deliveries_in_window repo a c s)
      ≡ length (deliveries_in_window repo a b s) + length (deliveries_in_window repo b c s)
deliveries_in_window_split repo a b c s ab bc =
    let split =
      count_split (in_window repo a b) (in_window repo b c) (in_window repo a c)
        (λ d e. ground arith) (λ d. ground arith) s.deliveries in
    omega (
      arith,
      split,
      length-deliveries_in_window repo a c s,
      length-deliveries_in_window repo a b s,
      length-deliveries_in_window repo b c s,
    )

-- A delivery received in the second a turn starts is outside that turn's window, and one received
-- in the second it ends is inside.
pub deliveries_in_window_sound :
    (repo : String) (after through : ℕ) (s : Store) {d : Delivery}
    → Memᴰ d (deliveries_in_window repo after through s)
    → Memᴰ d s.deliveries × (d.repo ≡ repo) × (after < d.received_at) × (d.received_at ≤ through)
unfolding deliveries_in_window
deliveries_in_window_sound repo after through s {d} m =
    let found =
      select_sound (in_window repo after through) s.deliveries
        (sort_by_sound (λ d. d.received_at) _ m) in
    (
      found.0,
      ground (arith, found.1, eq_iff d.repo repo),
      ground (arith, found.1),
      ground (arith, found.1),
    )
