-- ===== src/Prelude/Tables/Firsts.antt =====
-- Laws of the first row that a SELECT fetches, after INSERT, UPDATE and DELETE.
use Prim.Native.Nat.{◌+◌}
use mathlib.Core.Path.{◌≡◌, refl, ap, sym, ◌∙◌}
use mathlib.Core.Bool.{Bool, true, false}
use mathlib.Core.Option
use mathlib.Core.Option.{Option, none, some}
use mathlib.Core.List.{List, [], ◌∷◌, ◌++◌, Memᴰ}
use mathlib.Core.Logic.{inl, inr}
use native.Mathlib.Omega.{arith}
use code_workflow.Prelude.Tests.{Bool-cases, get_or, if◌then◌else◌}
use code_workflow.Prelude.Lists.{any}
use code_workflow.Prelude.Tables.Laws.{update_of_count-zero, count-update_cleared}
use code_workflow.Prelude.Tables.Defs.{count_where, update_where, first_where, delete_where}

module _ {ℓ} {A : Type ℓ} (p : A → Bool) (f : A → A) where
  -- The first row that meets a WHERE, after an UPDATE of just those rows that keeps them so.
  pub first-update_self :
      ((x : A) → p x ≡ true → p (f x) ≡ true)
      → (xs : List A) → first_where p (update_where p f xs) ≡ Option.map f (first_where p xs)
  first-update_self keeps [] = refl
  first-update_self keeps (x ∷ xs) = elim (Bool-cases (p x)) [
    | inl e ↦ rw (e, keeps x e) refl
    | inr e ↦ rw (e, e) (first-update_self keeps xs)
  ]

  -- An UPDATE of other rows leaves it alone.
  pub first-update_other :
      (q : A → Bool)
      → ((x : A) → q x ≡ true → p x ≡ false)
      → ((x : A) → p x ≡ true → q (f x) ≡ false)
      → (xs : List A) → first_where q (update_where p f xs) ≡ first_where q xs
  first-update_other q apart stays [] = refl
  first-update_other q apart stays (x ∷ xs) = elim (Bool-cases (p x)) [
    | inl e ↦
        rw (e, stays x e)
          (elim (Bool-cases (q x)) [
            | inl h ↦ absurd (cc (sym e ∙ apart x h))
            | inr h ↦ rw h (first-update_other q apart stays xs)
          ])
    | inr e ↦ rw e (elim (Bool-cases (q x)) [
      | inl h ↦ rw h refl
      | inr h ↦ rw h (first-update_other q apart stays xs)
    ])
  ]

  -- After an UPDATE that falsifies its own WHERE, another one with that WHERE does nothing.
  pub update-update_cleared :
      ((x : A) → p (f x) ≡ false)
      → (g : A → A) (xs : List A) → update_where p g (update_where p f xs) ≡ update_where p f xs
  update-update_cleared clears g xs =
      update_of_count-zero p g (update_where p f xs) (count-update_cleared p f clears xs)

module _ {ℓ} {A : Type ℓ} (p : A → Bool) where
  pub first-append :
      (xs : List A) (a : A) → any p xs ≡ false → p a ≡ true → first_where p (xs ++ a ∷ []) ≡ some a
  first-append [] a h e = rw e
  first-append (x ∷ xs) a h e = elim (Bool-cases (p x)) [
    | inl k ↦ absurd (ground arith)
    | inr k ↦ rw k (first-append xs a (ground arith) e)
  ]

  pub first-append_other :
      (xs : List A) (a : A) → p a ≡ false → first_where p (xs ++ a ∷ []) ≡ first_where p xs
  first-append_other [] a e = rw e
  first-append_other (x ∷ xs) a e = elim (Bool-cases (p x)) [
    | inl k ↦ rw k refl
    | inr k ↦ rw k (first-append_other xs a e)
  ]

  pub first-none : (xs : List A) → any p xs ≡ false → first_where p xs ≡ none
  first-none [] h = refl
  first-none (x ∷ xs) h = elim (Bool-cases (p x)) [
    | inl k ↦ absurd (ground arith)
    | inr k ↦ rw k (first-none xs (ground arith))
  ]

  pub first_sound : (xs : List A) {a : A} → first_where p xs ≡ some a → (p a ≡ true) × Memᴰ a xs
  first_sound [] h = absurd (cc h)
  first_sound (x ∷ xs) {a} h = elim (Bool-cases (p x)) [
    | inl k ↦ let same : a ≡ x = sym (ap (get_or x) (rw k at h)) in (ap p same ∙ k, Memᴰ.head same)
    | inr k ↦ let rest = first_sound xs (rw k at h) in (rest.0, Memᴰ.tail rest.1)
  ]

module _ {ℓ} {A : Type ℓ} (p : A → Bool) where
  pub any_of_first : (xs : List A) {a : A} → first_where p xs ≡ some a → any p xs ≡ true
  any_of_first [] h = cc h
  any_of_first (x ∷ xs) h = elim (Bool-cases (p x)) [
    | inl k ↦ rw k refl
    | inr k ↦ rw k (any_of_first xs (rw k at h))
  ]

module _ {ℓ} {A : Type ℓ} (p q : A → Bool) (f : A → A) where
  -- The first row that meets one WHERE, after an UPDATE under another one that does not touch `p`.
  pub first-update_within :
      ((x : A) → p (f x) ≡ p x)
      → (xs : List A) {a : A} → first_where p xs ≡ some a
      → first_where p (update_where q f xs) ≡ some (if q a then f a else a)
  first-update_within same [] h = cc h
  first-update_within same (x ∷ xs) {a} h = elim (Bool-cases (p x)) [
    | inl k ↦
        let first : x ≡ a = ap (get_or x) (rw k at h) in
        rw (← first)
          (elim (Bool-cases (q x)) [ inl e ↦ rw (e, same x, k) refl | inr e ↦ rw (e, k) refl ])
    | inr k ↦
        let rest = first-update_within same xs (rw k at h) in
        elim (Bool-cases (q x)) [ inl e ↦ rw (e, same x, k) rest | inr e ↦ rw (e, k) rest ]
  ]

module _ {ℓ} {A : Type ℓ} (p : A → Bool) where
  pub none_of_first : (xs : List A) → first_where p xs ≡ none → any p xs ≡ false
  none_of_first [] h = refl
  none_of_first (x ∷ xs) h = elim (Bool-cases (p x)) [
    | inl k ↦ cc (rw k at h)
    | inr k ↦ rw k (none_of_first xs (rw k at h))
  ]

  -- Rows that an UPDATE takes out of a larger condition are taken off its count.
  pub count-update_dropped :
      (q : A → Bool) (f : A → A)
      → ((x : A) → p x ≡ true → q x ≡ true)
      → ((x : A) → q (f x) ≡ false)
      → (xs : List A) → count_where q (update_where p f xs) + count_where p xs ≡ count_where q xs
  count-update_dropped q f within drops [] = refl
  count-update_dropped q f within drops (x ∷ xs) =
      ground (arith, within x, drops x, count-update_dropped q f within drops xs)

module _ {ℓ} {A : Type ℓ} (p : A → Bool) where
  pub first_of-delete : (xs : List A) → first_where p (delete_where p xs) ≡ none
  first_of-delete [] = refl
  first_of-delete (x ∷ xs) = elim (Bool-cases (p x)) [
    | inl k ↦ rw k (first_of-delete xs)
    | inr k ↦ rw (k, k) (first_of-delete xs)
  ]

  -- Replacing the rows that meet a WHERE by one that meets it.
  pub first-replace :
      (row : A) (xs : List A)
      → p row ≡ true
      → any p xs ≡ true
      → first_where p (update_where p (λ x. row) xs) ≡ some row
  first-replace row [] k h = cc h
  first-replace row (x ∷ xs) k h = elim (Bool-cases (p x)) [
    | inl e ↦ rw (e, k) refl
    | inr e ↦ rw (e, e) (first-replace row xs k (rw e at h))
  ]

module _ {ℓ} {A : Type ℓ} (p q : A → Bool) where
  -- The same where the SELECT is narrower than the UPDATE.
  pub first-replace_within :
      (row : A) (xs : List A)
      → q row ≡ true
      → ((x : A) → p x ≡ false → q x ≡ false)
      → any p xs ≡ true
      → first_where q (update_where p (λ x. row) xs) ≡ some row
  first-replace_within row [] k within h = cc h
  first-replace_within row (x ∷ xs) k within h = elim (Bool-cases (p x)) [
    | inl e ↦ rw (e, k) refl
    | inr e ↦ rw (e, within x e) (first-replace_within row xs k within (rw e at h))
  ]

module _ {ℓ} {A : Type ℓ} (p : A → Bool) where
  pub first_of-count-zero : (xs : List A) → count_where p xs ≡ 0 → first_where p xs ≡ none
  first_of-count-zero [] h = refl
  first_of-count-zero (x ∷ xs) h = elim (Bool-cases (p x)) [
    | inl k ↦ absurd (ground arith)
    | inr k ↦ rw k (first_of-count-zero xs (ground arith))
  ]
