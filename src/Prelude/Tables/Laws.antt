-- ===== src/Prelude/Tables/Laws.antt =====
-- Laws of SELECT, COUNT and UPDATE, for every table and condition.
use Prim.Native.Nat.{suc, ◌+◌, ◌≤◌}
use mathlib.Core.Path.{◌≡◌, refl, ap, sym, ◌∙◌}
use mathlib.Core.Bool.{Bool, true, false, not, ◌||◌}
use mathlib.Core.List.{List, [], ◌∷◌, ◌++◌, Memᴰ, map}
use mathlib.Core.Logic.{inl, inr}
use native.Mathlib.Omega.{arith}
use mathlib.Core.List.Memᴰ
use code_workflow.Prelude.Tests.{Bool-cases, leb, if◌then◌else◌}
use code_workflow.Prelude.Lists.{length, any}
use code_workflow.Prelude.Tables.Defs.{select, count_where, update_where}

module _ {ℓ} {A : Type ℓ} (p : A → Bool) (f : A → A) where
  -- An UPDATE whose SET falsifies its own WHERE leaves no row that meets it.
  pub count-update_cleared :
      ((x : A) → p (f x) ≡ false) → (xs : List A) → count_where p (update_where p f xs) ≡ 0
  count-update_cleared clears [] = refl
  count-update_cleared clears (x ∷ xs) = ground (arith, clears x, count-update_cleared clears xs)

  -- A count that the SET leaves alone is not moved.
  pub count-update_kept :
      (q : A → Bool)
      → ((x : A) → p x ≡ true → q (f x) ≡ q x)
      → (xs : List A) → count_where q (update_where p f xs) ≡ count_where q xs
  count-update_kept q keeps [] = refl
  count-update_kept q keeps (x ∷ xs) = ground (arith, keeps x, count-update_kept q keeps xs)

  -- Rows that leave `p` for `q` are added to the count of `q`.
  pub count-update_moved :
      (q : A → Bool)
      → ((x : A) → p x ≡ true → q x ≡ false)
      → ((x : A) → q (f x) ≡ true)
      → (xs : List A) → count_where q (update_where p f xs) ≡ count_where q xs + count_where p xs
  count-update_moved q apart moves [] = refl
  count-update_moved q apart moves (x ∷ xs) =
      ground (arith, apart x, moves x, count-update_moved q apart moves xs)

  pub length-update : (xs : List A) → length (update_where p f xs) ≡ length xs
  length-update [] = refl
  length-update (x ∷ xs) = ap suc (length-update xs)

  -- An UPDATE that matches nothing changes nothing.
  pub update_of_count-zero : (xs : List A) → count_where p xs ≡ 0 → update_where p f xs ≡ xs
  update_of_count-zero [] h = refl
  update_of_count-zero (x ∷ xs) h = elim (Bool-cases (p x)) [
    | inl e ↦ absurd (ground arith)
    | inr e ↦ rw e (ap (λ t. x ∷ t) (update_of_count-zero xs (ground arith)))
  ]

  -- A column that the SET leaves alone is the same column afterwards.
  pub map-update {κ} :
      {B : Type κ} (g : A → B)
      → ((x : A) → g (f x) ≡ g x)
      → (xs : List A) → map g (update_where p f xs) ≡ map g xs
  map-update g same [] = refl
  map-update g same (x ∷ xs) = elim (Bool-cases (p x)) [
    | inl e ↦ rw e (λ i. same x i ∷ map-update g same xs i)
    | inr e ↦ rw e (λ i. g x ∷ map-update g same xs i)
  ]

module _ {ℓ} {A : Type ℓ} (p : A → Bool) where
  -- SELECT returns rows of the table that meet its WHERE.
  pub select_sound : {a : A} (xs : List A) → Memᴰ a (select p xs) → Memᴰ a xs × (p a ≡ true)
  select_sound [] m = absurd (Memᴰ.not-nil m)
  select_sound {a} (x ∷ xs) m = elim (Bool-cases (p x)) [
    | inl e ↦ found e (select_sound xs) (rw e at m)
    | inr e ↦ let r = select_sound xs (rw e at m) in (Memᴰ.tail r.0, r.1)
  ]
    where
      found :
          p x ≡ true
          → (Memᴰ a (select p xs) → Memᴰ a xs × (p a ≡ true))
          → Memᴰ a (x ∷ select p xs)
          → Memᴰ a (x ∷ xs) × (p a ≡ true)
      found e ih (Memᴰ.head q) = (Memᴰ.head q, ap p q ∙ e)
      found e ih (Memᴰ.tail t) = (Memᴰ.tail (ih t).0, (ih t).1)

  -- SELECT returns every row that meets its WHERE.
  pub select_complete : {a : A} (xs : List A) → Memᴰ a xs → p a ≡ true → Memᴰ a (select p xs)
  select_complete [] m h = absurd (Memᴰ.not-nil m)
  select_complete (x ∷ xs) (Memᴰ.head q) h = rw (ap p (sym q) ∙ h) (Memᴰ.head q)
  select_complete (x ∷ xs) (Memᴰ.tail m) h = elim (Bool-cases (p x)) [
    | inl e ↦ rw e (Memᴰ.tail (select_complete xs m h))
    | inr e ↦ rw e (select_complete xs m h)
  ]

  pub length-select : (xs : List A) → length (select p xs) ≡ count_where p xs
  length-select [] = refl
  length-select (x ∷ xs) = ground (arith, length-select xs)

  pub count-le-length : (xs : List A) → count_where p xs ≤ length xs
  count-le-length [] = omega arith
  count-le-length (x ∷ xs) = ground (arith, count-le-length xs)

module _ {ℓ} {A : Type ℓ} (p : A → Bool) (f : A → A) where
  -- A row after an UPDATE is an old row, changed if it met the WHERE.
  pub update_sound :
      {a : A} (xs : List A)
      → Memᴰ a (update_where p f xs)
      → (b : A) × Memᴰ b xs × (a ≡ (if p b then f b else b))
  update_sound [] m = absurd (Memᴰ.not-nil m)
  update_sound (x ∷ xs) (Memᴰ.head q) = (x, Memᴰ.head refl, q)
  update_sound (x ∷ xs) (Memᴰ.tail m) = let (b, old, q) = update_sound xs m in (b, Memᴰ.tail old, q)

module _ {ℓ} {A : Type ℓ} (p : A → Bool) where
  pub any-append : (xs ys : List A) → any p (xs ++ ys) ≡ (any p xs || any p ys)
  any-append [] ys = refl
  any-append (x ∷ xs) ys = ground (arith, any-append xs ys)

  pub count-append :
      (xs ys : List A) → count_where p (xs ++ ys) ≡ count_where p xs + count_where p ys
  count-append [] ys = omega arith
  count-append (x ∷ xs) ys = ground (arith, count-append xs ys)

  -- A table has a row that meets the WHERE exactly if the count is not 0.
  pub any-count : (xs : List A) → any p xs ≡ not (leb (count_where p xs) 0)
  any-count [] = refl
  any-count (x ∷ xs) = ground (arith, any-count xs)

  -- Two conditions that exclude one another and add up to a third have counts that add up.
  pub count_split :
      (q r : A → Bool)
      → ((x : A) → p x ≡ true → q x ≡ false)
      → ((x : A) → r x ≡ (p x || q x))
      → (xs : List A) → count_where r xs ≡ count_where p xs + count_where q xs
  count_split q r apart both [] = refl
  count_split q r apart both (x ∷ xs) =
      ground (arith, apart x, both x, count_split q r apart both xs)
