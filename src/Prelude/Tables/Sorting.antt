-- ===== src/Prelude/Tables/Sorting.antt =====
-- ORDER BY gives the rows that it is given, in order.
use Prim.Native.Nat.{ℕ, zero, suc, ◌≤◌}
use mathlib.Core.Path.{◌≡◌, refl}
use mathlib.Core.Logic.{◌⊎◌, inl, inr}
use mathlib.Core.List.{List, [], ◌∷◌, Perm, Memᴰ}
use mathlib.Core.List.Memᴰ
use mathlib.Core.List.Perm
use native.Mathlib.Omega.{arith}
use code_workflow.Prelude.Tests.{leb, Bool-cases}
use code_workflow.Prelude.Lists.{length, take}
use code_workflow.Prelude.Tables.Defs.{insert_by, sort_by}

module _ {ℓ} {A : Type ℓ} (key : A → ℕ) where
  -- Each row's key is at most the next row's.
  abbrev pub IsSortedBy : List A → Type 0
  IsSortedBy [] = Unit
  IsSortedBy (x ∷ []) = Unit
  IsSortedBy (x ∷ y ∷ ys) = (key x ≤ key y) × IsSortedBy (y ∷ ys)

  insert_by-perm : (x : A) (ys : List A) → Perm (insert_by key x ys) (x ∷ ys)
  insert_by-perm x [] = Perm.refl (x ∷ [])
  insert_by-perm x (y ∷ ys) = elim (Bool-cases (leb (key x) (key y))) [
    | inl e ↦ rw e (Perm.refl (x ∷ y ∷ ys))
    | inr e ↦ rw e (Perm.trans (Perm.cons y (insert_by-perm x ys)) (Perm.swap x y ys))
  ]

  pub sort_by-perm : (xs : List A) → Perm (sort_by key xs) xs
  sort_by-perm [] = Perm.refl []
  sort_by-perm (x ∷ xs) =
      Perm.trans (insert_by-perm x (sort_by key xs)) (Perm.cons x (sort_by-perm xs))

  insert_by-IsSortedBy : (x : A) (ys : List A) → IsSortedBy ys → IsSortedBy (insert_by key x ys)
  insert_by-IsSortedBy x [] h = tt
  insert_by-IsSortedBy x (y ∷ []) h = ground arith
  insert_by-IsSortedBy x (y ∷ z ∷ zs) h = ground (arith, insert_by-IsSortedBy x (z ∷ zs))

  pub sort_by-IsSortedBy : (xs : List A) → IsSortedBy (sort_by key xs)
  sort_by-IsSortedBy [] = tt
  sort_by-IsSortedBy (x ∷ xs) = insert_by-IsSortedBy x (sort_by key xs) (sort_by-IsSortedBy xs)

  length-insert_by : (x : A) (ys : List A) → length (insert_by key x ys) ≡ suc (length ys)
  length-insert_by x [] = refl
  length-insert_by x (y ∷ ys) = ground (arith, length-insert_by x ys)

  pub length-sort_by : (xs : List A) → length (sort_by key xs) ≡ length xs
  length-sort_by [] = refl
  length-sort_by (x ∷ xs) = omega (arith, length-insert_by x (sort_by key xs), length-sort_by xs)

module _ {ℓ} {A : Type ℓ} (key : A → ℕ) {a : A} where
  cons_cases : {x : A} {xs : List A} → Memᴰ a (x ∷ xs) → (a ≡ x) ⊎ Memᴰ a xs
  cons_cases (Memᴰ.head q) = inl q
  cons_cases (Memᴰ.tail m) = inr m

  insert_by_sound : (x : A) (ys : List A) → Memᴰ a (insert_by key x ys) → (a ≡ x) ⊎ Memᴰ a ys
  insert_by_sound x [] m = cons_cases m
  insert_by_sound x (y ∷ ys) m = elim (Bool-cases (leb (key x) (key y))) [
    | inl e ↦ cons_cases (rw e at m)
    | inr e ↦ under (insert_by_sound x ys) (rw e at m)
  ]
    where
      under :
          (Memᴰ a (insert_by key x ys) → (a ≡ x) ⊎ Memᴰ a ys)
          → Memᴰ a (y ∷ insert_by key x ys)
          → (a ≡ x) ⊎ Memᴰ a (y ∷ ys)
      under ih (Memᴰ.head q) = inr (Memᴰ.head q)
      under ih (Memᴰ.tail m) = elim (ih m) [ inl q ↦ inl q | inr t ↦ inr (Memᴰ.tail t) ]

  pub sort_by_sound : (xs : List A) → Memᴰ a (sort_by key xs) → Memᴰ a xs
  sort_by_sound [] m = m
  sort_by_sound (x ∷ xs) m = elim (insert_by_sound x (sort_by key xs) m) [
    | inl q ↦ Memᴰ.head q
    | inr t ↦ Memᴰ.tail (sort_by_sound xs t)
  ]

  insert_by_head : (x : A) (ys : List A) → a ≡ x → Memᴰ a (insert_by key x ys)
  insert_by_head x [] q = Memᴰ.head q
  insert_by_head x (y ∷ ys) q = elim (Bool-cases (leb (key x) (key y))) [
    | inl e ↦ rw e (Memᴰ.head q)
    | inr e ↦ rw e (Memᴰ.tail (insert_by_head x ys q))
  ]

  insert_by_tail : (x : A) (ys : List A) → Memᴰ a ys → Memᴰ a (insert_by key x ys)
  insert_by_tail x [] m = absurd (Memᴰ.not-nil m)
  insert_by_tail x (y ∷ ys) m = elim (Bool-cases (leb (key x) (key y))) [
    | inl e ↦ rw e (Memᴰ.tail m)
    | inr e ↦ rw e (under (insert_by_tail x ys) m)
  ]
    where
      under :
          (Memᴰ a ys → Memᴰ a (insert_by key x ys))
          → Memᴰ a (y ∷ ys)
          → Memᴰ a (y ∷ insert_by key x ys)
      under ih (Memᴰ.head q) = Memᴰ.head q
      under ih (Memᴰ.tail t) = Memᴰ.tail (ih t)

  pub sort_by_complete : (xs : List A) → Memᴰ a xs → Memᴰ a (sort_by key xs)
  sort_by_complete [] m = m
  sort_by_complete (x ∷ xs) (Memᴰ.head q) = insert_by_head x (sort_by key xs) q
  sort_by_complete (x ∷ xs) (Memᴰ.tail m) =
      insert_by_tail x (sort_by key xs) (sort_by_complete xs m)

module _ {ℓ} {A : Type ℓ} {a : A} where
  pub take_sound : (n : ℕ) (xs : List A) → Memᴰ a (take n xs) → Memᴰ a xs
  take_sound zero xs m = absurd (Memᴰ.not-nil m)
  take_sound (suc n) [] m = m
  take_sound (suc n) (x ∷ xs) (Memᴰ.head q) = Memᴰ.head q
  take_sound (suc n) (x ∷ xs) (Memᴰ.tail m) = Memᴰ.tail (take_sound n xs m)
