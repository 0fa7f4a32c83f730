-- ===== src/LoopSafety/Stall.antt =====
-- The stall signals of loop_safety.py over sequences of observed turns and review rounds.
use text.Mathlib.TextPositions.{eq_refl}
use code_workflow.Prelude.{
  ℕ, suc, ◌+◌, ◌≤◌, ◌≡◌, ◌≢◌, ◌↔◌, ◌⊎◌, inl, refl, true, false, Option, none, some, List, [], ◌∷◌,
  String, arith, length, All, leb, zero,
}
use code_workflow.LoopSafety.{
  StallTracker, new_stall, StallSignal, observe_fingerprint, observe_review_round,
}

-- A turn's progress fingerprint and its head, if the head is known.
abbrev pub Observation : Type 0
Observation = String × Option String

unfoldable pub signals : StallTracker → List Observation → List (Option StallSignal)
signals t [] = []
signals t ((fp, head) ∷ os) =
    let (t', signal) = observe_fingerprint t fp head in signal ∷ signals t' os

-- not armed, and no head seen but `h`
abbrev IsQuiet : String → StallTracker → Type 0
IsQuiet h t = (t.seen_head_change ≡ false) × ((t.last_head ≡ none) ⊎ (t.last_head ≡ some h))

abbrev IsHead : String → Option String → Type 0
IsHead h head = (head ≡ none) ⊎ (head ≡ some h)

observe_fingerprint-IsQuiet :
    (h : String) (t : StallTracker) (fp : String) (head : Option String)
    → IsQuiet h t
    → IsHead h head
    → IsQuiet h (observe_fingerprint t fp head).0 × ((observe_fingerprint t fp head).1 ≡ none)
unfolding observe_fingerprint
observe_fingerprint-IsQuiet h t fp head q k = ground (arith, eq_refl h)

signals_quiet :
    (h : String) (t : StallTracker) (os : List Observation)
    → IsQuiet h t
    → All (λ o. IsHead h o.1) os
    → All (λ s. s ≡ none) (signals t os)
unfolding signals
signals_quiet h t [] q ks = tt
signals_quiet h t ((fp, head) ∷ os) q ks =
    let step = observe_fingerprint-IsQuiet h t fp head q ks.0 in
    (step.1, signals_quiet h (observe_fingerprint t fp head).0 os step.0 ks.1)

-- While the head does not move, a new tracker raises no signal, whatever the fingerprints are.
pub signals_before_head_change :
    (h : String) (os : List Observation)
    → All (λ o. (o.1 ≡ none) ⊎ (o.1 ≡ some h)) os
    → All (λ s. s ≡ none) (signals new_stall os)
signals_before_head_change h os ks = signals_quiet h new_stall os (refl, inl refl) ks

-- The tracker after one fingerprint at each of these heads.
unfoldable pub repeat_at : StallTracker → String → List String → StallTracker
repeat_at t fp [] = t
repeat_at t fp (head ∷ heads) = repeat_at (observe_fingerprint t fp (some head)).0 fp heads

-- armed, with `fp` as the last fingerprint
pub record IsArmedAt (fp : String) (t : StallTracker) : Type 0 where
  pub armed : t.seen_head_change ≡ true
  pub same : t.last_fp ≡ some fp
  pub head_known : t.last_head ≢ none

observe_fingerprint-IsArmedAt :
    (t : StallTracker) (fp head : String)
    → IsArmedAt fp t
    → IsArmedAt fp (observe_fingerprint t fp (some head)).0
      × ((observe_fingerprint t fp (some head)).0.fp_repeat ≡ t.fp_repeat + 1)
      × ((observe_fingerprint t fp (some head)).0.fp_threshold ≡ t.fp_threshold)
      × (((observe_fingerprint t fp (some head)).1 ≢ none) ↔ (t.fp_threshold ≤ t.fp_repeat + 1))
unfolding observe_fingerprint
observe_fingerprint-IsArmedAt t fp head a = (
  ground (arith, eq_refl fp),
  ground (arith, eq_refl fp),
  ground (arith, eq_refl fp),
  (λ h. ground (arith, eq_refl fp), λ h. ground (arith, eq_refl fp)),
)

repeat_at_lem :
    (t : StallTracker) (fp : String) (heads : List String)
    → IsArmedAt fp t
    → IsArmedAt fp (repeat_at t fp heads)
      × ((repeat_at t fp heads).fp_repeat ≡ t.fp_repeat + length heads)
      × ((repeat_at t fp heads).fp_threshold ≡ t.fp_threshold)
unfolding repeat_at
repeat_at_lem t fp [] a = (a, omega arith, refl)
repeat_at_lem t fp (head ∷ heads) a =
    let step = observe_fingerprint-IsArmedAt t fp head a in
    let rest = repeat_at_lem (observe_fingerprint t fp (some head)).0 fp heads step.0 in
    (rest.0, omega (arith, step.1, rest.1), omega (arith, step.2, rest.2))

-- Once armed, one fingerprint repeated over any further heads is counted every turn, and the turn
-- that brings the count to the threshold, like every one after it, raises the signal; none does before.
pub repeated_fingerprint_signals :
    (t : StallTracker) (fp : String) (heads : List String) (head : String)
    → IsArmedAt fp t
    → ((observe_fingerprint (repeat_at t fp heads) fp (some head)).1 ≢ none)
      ↔ (t.fp_threshold ≤ t.fp_repeat + length heads + 1)
repeated_fingerprint_signals t fp heads head a =
    let before = repeat_at_lem t fp heads a in
    let now = observe_fingerprint-IsArmedAt (repeat_at t fp heads) fp head before.0 in
    (
      λ h. omega (arith, now.3.0 h, before.1, before.2),
      λ h. now.3.1 (omega (arith, before.1, before.2)),
    )

unfoldable pub review_rounds : StallTracker → List ℕ → StallTracker
review_rounds t [] = t
review_rounds t (r ∷ rs) = review_rounds (observe_review_round t r).0 rs

-- how many rounds at the end resolved no thread, from `n` such before them
abbrev pub idle_rounds : ℕ → List ℕ → ℕ
idle_rounds n [] = n
idle_rounds n (zero ∷ rs) = idle_rounds (n + 1) rs
idle_rounds n (suc r ∷ rs) = idle_rounds 0 rs

zero_thread_rounds-review_rounds :
    (t : StallTracker) (rs : List ℕ)
    → ((review_rounds t rs).zero_thread_rounds ≡ idle_rounds t.zero_thread_rounds rs)
      × ((review_rounds t rs).zero_thread_threshold ≡ t.zero_thread_threshold)
unfolding review_rounds observe_review_round
zero_thread_rounds-review_rounds t [] = (refl, refl)
zero_thread_rounds-review_rounds t (zero ∷ rs) =
    zero_thread_rounds-review_rounds (observe_review_round t zero).0 rs
zero_thread_rounds-review_rounds t (suc r ∷ rs) =
    let more : leb (suc r) 0 ≡ false = ground arith in
    rw (review_rounds, more)
      (zero_thread_rounds-review_rounds (record t { zero_thread_rounds = 0 }) rs)

-- After any review rounds, the next one raises the zero-thread signal exactly if it and the rounds
-- just before it that resolved no thread are three or more.
pub review_rounds_signal :
    (rs : List ℕ) (r : ℕ)
    → ((observe_review_round (review_rounds new_stall rs) r).1 ≢ none)
      ↔ ((r ≡ 0) × (3 ≤ idle_rounds 0 rs + 1))
unfolding observe_review_round
review_rounds_signal rs r =
    let state = zero_thread_rounds-review_rounds new_stall rs in
    (λ h. ground (arith, state), λ h. ground (arith, state))
