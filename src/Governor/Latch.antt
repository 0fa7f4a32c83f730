-- ===== src/Governor/Latch.antt =====
-- The breaker of governor.py over sequences of samples.
use code_workflow.Prelude.{
  ℕ, ◌+◌, ◌≤◌, ◌≡◌, refl, Option, none, some, List, [], ◌∷◌, Bool, true, false, not, ◌&&◌, arith,
  if◌then◌else◌, ltb, Option-cases, is_some, inl, inr,
}
use code_workflow.Store.Rows.{Store}
use code_workflow.Store.Breaker.{is_disk_paused, set_disk_paused}
use code_workflow.Governor.{Limits, sample_once}

-- The samples in order, each with its time, and how often the breaker tripped.
abbrev pub samples : Limits → List (ℕ × Option ℕ) → Store → Store × ℕ
samples limits [] s = (s, 0)
samples limits ((now, free) ∷ rest) s =
    let first = sample_once limits now free s in
    let (t, n) = samples limits rest first.store in (t, if first.tripped then n + 1 else n)

-- What one reading asks for: below the floor pause, above the resume level run, else as before.
abbrev asks : Limits → Option ℕ → Bool → Bool
asks limits none paused = paused
asks limits (some free) paused =
    if ltb free limits.floor then true else if ltb limits.resume free then false else paused

-- The latch and the number of its rises, read off the samples alone.
abbrev pub latch : Limits → Bool → List (ℕ × Option ℕ) → Bool × ℕ
latch limits paused [] = (paused, 0)
latch limits paused ((now, free) ∷ rest) =
    let next = asks limits free paused in
    let (p, n) = latch limits next rest in (p, if next && not paused then n + 1 else n)

abbrev HasBreaker : Store → Type 0
HasBreaker s = is_some s.circuit_breaker ≡ true

sample_once_lem :
    (limits : Limits) (now : ℕ) (free : Option ℕ) (s : Store)
    → HasBreaker s
    → limits.floor ≤ limits.resume
    → HasBreaker (sample_once limits now free s).store
      × (is_disk_paused (sample_once limits now free s).store ≡ asks limits free (is_disk_paused s))
      × ((sample_once limits now free s).tripped
          ≡ (asks limits free (is_disk_paused s) && not (is_disk_paused s)))
unfolding sample_once is_disk_paused set_disk_paused
sample_once_lem limits now none s row h = (row, refl, ground arith)
sample_once_lem limits now (some free) s row h = elim (Option-cases s.circuit_breaker) [
  | inl e ↦ cc (rw e at row)
  | inr (b, e) ↦ rw e (ground arith)
]

-- If the floor is not above the resume level and the breaker's row exists: after any samples the
-- breaker is paused exactly if the last reading outside the two limits was below the floor, or
-- there was none and it was paused before; and it tripped as often as it went from running to
-- paused.
pub samples-latch :
    (limits : Limits) (readings : List (ℕ × Option ℕ)) (s : Store)
    → is_some s.circuit_breaker ≡ true
    → limits.floor ≤ limits.resume
    → (is_disk_paused (samples limits readings s).0 ≡ (latch limits (is_disk_paused s) readings).0)
      × ((samples limits readings s).1 ≡ (latch limits (is_disk_paused s) readings).1)
samples-latch limits [] s row h = (refl, refl)
samples-latch limits ((now, free) ∷ rest) s row h =
    let (row', paused, trip) = sample_once_lem limits now free s row h in
    let (p, n) = samples-latch limits rest (sample_once limits now free s).store row' h in
    (rw (p, paused) refl, rw (n, paused, trip) refl)
