-- ===== src/SessionLoop/Process/Retries.antt =====
-- Turns that keep failing to start, and merges that keep being refused for now.
use code_workflow.Prelude.{
  ℕ, zero, suc, ◌≤◌, ◌<◌, String, ◌≡◌, refl, ap, ◌∙◌, arith, str_eq, eq_iff, ltb, lt→ltb, true,
}
use code_workflow.Prelude.Split.{◌+++◌}
use code_workflow.Prelude.Decimal.{decimal}
use code_workflow.SessionLoop.Process.{
  World, Outcome, finished, Outside, TurnRequest, escalate_done, count_at,
}
use code_workflow.SessionLoop.Process.Dispatch.{retry_or_give_up, set_attempts}
use code_workflow.SessionLoop.Process.Events.{Classified}
use code_workflow.SessionLoop.Process.Approvals.{transient_refusal, forget_attempts}
use code_workflow.Verify.{ApprovalCheck}

count_at_key : (key : String) (n : ℕ) (counts : String → ℕ) → count_at key n counts key ≡ n
count_at_key key n counts =
    let same : str_eq key key ≡ true = (eq_iff key key).1 refl in rw same refl

-- A step, once more where the delivery was left as it is.
abbrev pub again : {A : Type 0} → (World → Outcome A) → Outcome A → Outcome A
again step (finished w) = step w
again step x = x

-- A number of such steps, one for each time that the delivery is taken up.
abbrev pub tries : {A : Type 0} → (World → Outcome A) → ℕ → World → Outcome A
tries step zero w = finished w
tries step (suc k) w = again step (tries step k w)

module _ {A : Type 0} (step : World → Outcome A) (count : World → ℕ)
    (keeps : (w : World)
      → count w < 4
      → (v : World) × ((step w ≡ finished v)
          × ((v.store ≡ w.store) × (count v ≡ suc (count w))))) where
  tries_kept :
      (k : ℕ) (w : World)
      → count w ≡ 0
      → k ≤ 4
      → (v : World) × ((tries step k w ≡ finished v) × ((v.store ≡ w.store) × (count v ≡ k)))
  tries_kept zero w e h = (w, (refl, (refl, e)))
  tries_kept (suc k) w e h =
      let (v, (ran, (same, counted))) = tries_kept k w e (omega arith) in
      let (u, (ran', (same', counted'))) = keeps v (omega (arith, counted)) in
      (u, (ap (again step) ran ∙ ran', (same' ∙ same, counted' ∙ ap suc counted)))

module _ (o : Outside) (reason : String) (t : TurnRequest) where
  abbrev dispatch_count : World → ℕ
  dispatch_count w = w.delivery_attempts t.incoming.delivery_id

  retry_kept :
      (w : World)
      → dispatch_count w < 4
      → (v : World) × ((retry_or_give_up o reason t w ≡ finished v)
          × ((v.store ≡ w.store) × (dispatch_count v ≡ suc (dispatch_count w))))
  retry_kept w h =
      let id = t.incoming.delivery_id in
      let n = suc (w.delivery_attempts id) in
      let less : ltb n 5 ≡ true = lt→ltb n 5 (omega arith) in
      (set_attempts t.incoming n w, (rw less refl, (refl, count_at_key id n w.delivery_attempts)))

  retry_last :
      (w : World)
      → dispatch_count w ≡ 4
      → (v : World) × ((retry_or_give_up o reason t w
            ≡ escalate_done o t.session_key
                ("dispatch still failing after " +++ decimal 5 +++ " attempts: " +++ reason)
                t.incoming
                v)
          × ((v.store ≡ w.store) × (dispatch_count v ≡ 0)))
  retry_last w e = (
    set_attempts t.incoming 0 w,
    (rw e refl, (refl, count_at_key t.incoming.delivery_id 0 w.delivery_attempts)),
  )

  -- A turn that keeps failing to start leaves its delivery four times as it is, with nothing stored;
  -- the fifth failure escalates, ends the delivery and forgets the count, which starts at 0.
  pub dispatch_gives_up :
      (w : World)
      → w.delivery_attempts t.incoming.delivery_id ≡ 0
      → ((k : ℕ)
          → k ≤ 4
          → (v : World) × ((tries (retry_or_give_up o reason t) k w ≡ finished v)
              × (v.store ≡ w.store)))
        × ((v : World) × ((tries (retry_or_give_up o reason t) 5 w
                ≡ escalate_done o t.session_key
                    ("dispatch still failing after " +++ decimal 5 +++ " attempts: " +++ reason)
                    t.incoming
                    v)
              × ((v.store ≡ w.store) × (v.delivery_attempts t.incoming.delivery_id ≡ 0))))
  dispatch_gives_up w e =
      let step = retry_or_give_up o reason t in
      let kept = tries_kept step dispatch_count retry_kept in
      let (v, (ran, (same, counted))) = kept 4 w e (omega arith) in
      let (u, (gave, (same', reset))) = retry_last v counted in
      (
        (λ k h. let (x, (tried, (stays, n))) = kept k w e h in (x, (tried, stays))),
        (u, (ap (again step) ran ∙ gave, (same' ∙ same, reset))),
      )

module _ (o : Outside) (c : Classified) (check : ApprovalCheck) where
  abbrev merge_count : World → ℕ
  merge_count w = w.merge_auth_attempts c.taken.incoming.delivery_id

  refusal_kept :
      (w : World)
      → merge_count w < 4
      → (v : World) × ((transient_refusal o c check w ≡ finished v)
          × ((v.store ≡ w.store) × (merge_count v ≡ suc (merge_count w))))
  refusal_kept w h =
      let id = c.taken.incoming.delivery_id in
      let n = suc (w.merge_auth_attempts id) in
      let less : ltb n 5 ≡ true = lt→ltb n 5 (omega arith) in
      (
        record w { merge_auth_attempts = count_at id n w.merge_auth_attempts },
        (rw less refl, (refl, count_at_key id n w.merge_auth_attempts)),
      )

  refusal_last :
      (w : World)
      → merge_count w ≡ 4
      → (v : World) × ((transient_refusal o c check w
            ≡ escalate_done o c.taken.session_key
                ("feature merge authorization still not ready after "
                  +++ decimal 5
                  +++ " attempts (was transient): "
                  +++ o.reason_text check.reason)
                c.taken.incoming
                v)
          × ((v.store ≡ w.store) × (merge_count v ≡ 0)))
  refusal_last w e = (
    forget_attempts c.taken.incoming w,
    (rw e refl, (refl, count_at_key c.taken.incoming.delivery_id 0 w.merge_auth_attempts)),
  )

  -- A merge that is refused for now leaves its delivery four times as it is, with nothing stored; the
  -- fifth refusal escalates, ends the delivery and forgets the count, which starts at 0.
  pub merge_gives_up :
      (w : World)
      → w.merge_auth_attempts c.taken.incoming.delivery_id ≡ 0
      → ((k : ℕ)
          → k ≤ 4
          → (v : World) × ((tries (transient_refusal o c check) k w ≡ finished v)
              × (v.store ≡ w.store)))
        × ((v : World) × ((tries (transient_refusal o c check) 5 w
                ≡ escalate_done o c.taken.session_key
                    ("feature merge authorization still not ready after "
                      +++ decimal 5
                      +++ " attempts (was transient): "
                      +++ o.reason_text check.reason)
                    c.taken.incoming
                    v)
              × ((v.store ≡ w.store) × (v.merge_auth_attempts c.taken.incoming.delivery_id ≡ 0))))
  merge_gives_up w e =
      let step = transient_refusal o c check in
      let kept = tries_kept step merge_count refusal_kept in
      let (v, (ran, (same, counted))) = kept 4 w e (omega arith) in
      let (u, (gave, (same', reset))) = refusal_last v counted in
      (
        (λ k h. let (x, (tried, (stays, n))) = kept k w e h in (x, (tried, stays))),
        (u, (ap (again step) ran ∙ gave, (same' ∙ same, reset))),
      )
