-- ===== src/SessionLoop/Process/Outcomes.antt =====
-- What holds of the outcome of a step, and of one step after another.
use code_workflow.Prelude.{◌≡◌, refl, Bool, true, false, if◌then◌else◌, Option, none, some}
use code_workflow.Store.Rows.{Store}
use code_workflow.SessionLoop.Process.{
  World, Outcome, next, finished, raised, ◌▷◌, Handled, returned, escaped, end_handled, stored, put,
}

-- `P` of what is handed on, `F` of the world in which the delivery is finished, `R` of the world in
-- which an exception is raised.
pub data Post {A : Type 0} (P : A → World → Type 0) (F R : World → Type 0)
    : Outcome A → Type 0 where
  handed : {a : A} {w : World} → P a w → Post P F R (next a w)
  ended : {w : World} → F w → Post P F R (finished w)
  failed : {w : World} → R w → Post P F R (raised w)

abbrev pub Any : World → Type 0
Any w = Unit

-- `P` of what is handed on, if anything is.
abbrev pub Next : {A : Type 0} → (A → World → Type 0) → Outcome A → Type 0
Next P x = Post P Any Any x

module _ {A : Type 0} {P : A → World → Type 0} {F R : World → Type 0} where
  pub from_next : {a : A} {w : World} → Post P F R (next a w) → P a w
  from_next (handed h) = h

  pub from_finished : {w : World} → Post P F R (finished w) → F w
  from_finished (ended h) = h

  pub from_raised : {w : World} → Post P F R (raised w) → R w
  from_raised (failed h) = h

  pub Post-weaken :
      {Q : A → World → Type 0} {x : Outcome A}
      → Post P F R x
      → ((a : A) (w : World) → P a w → Q a w)
      → Post Q F R x
  Post-weaken {x = next a w} (handed h) k = handed (k a w h)
  Post-weaken {x = finished w} (ended h) k = ended h
  Post-weaken {x = raised w} (failed h) k = failed h

  -- A test that ends the delivery, or hands on.
  pub if-Post :
      {t : Bool} {x y : Outcome A}
      → (t ≡ true → Post P F R x)
      → (t ≡ false → Post P F R y)
      → Post P F R (if t then x else y)
  if-Post {t = true} h k = h refl
  if-Post {t = false} h k = k refl

  -- The same, where the answer to the test is not needed.
  pub either-Post :
      (t : Bool) {x y : Outcome A} → Post P F R x → Post P F R y → Post P F R (if t then x else y)
  either-Post true h k = h
  either-Post false h k = k

  pub ▷-Post :
      {B : Type 0} {Q : B → World → Type 0} (x : Outcome A) (f : A → World → Outcome B)
      → Post P F R x
      → ((a : A) (w : World) → P a w → Post Q F R (f a w))
      → Post Q F R (x ▷ f)
  ▷-Post (next a w) f (handed h) k = k a w h
  ▷-Post (finished w) f (ended h) k = ended h
  ▷-Post (raised w) f (failed h) k = failed h

pub any-Next : {A : Type 0} (x : Outcome A) → Next (λ a w. Unit) x
any-Next (next a w) = handed tt
any-Next (finished w) = ended tt
any-Next (raised w) = failed tt

-- A handler hands nothing on.
pub handled-Next : {A : Type 0} {P : A → World → Type 0} (h : Handled) → Next P (end_handled h)
handled-Next (returned w) = ended tt
handled-Next (escaped w) = failed tt

-- What is handed on, with a property of it.
pub itself-Next :
    {A : Type 0} {P : A → World → Type 0} (x : Outcome A)
    → Next P x
    → Next (λ a w. (x ≡ next a w) × P a w) x
itself-Next (next a w) (handed h) = handed (refl, h)
itself-Next (finished w) h = ended tt
itself-Next (raised w) h = failed tt

-- A step after one of which nothing is asked.
pub then-Next :
    {A B : Type 0} {Q : B → World → Type 0} (x : Outcome A) (f : A → World → Outcome B)
    → ((a : A) (w : World) → Next Q (f a w))
    → Next Q (x ▷ f)
then-Next x f k = ▷-Post x f (any-Next x) (λ a w u. k a w)

-- A write to the store changes nothing else of the world.
pub stored-Post :
    {I F R : World → Type 0} (w : World) (m : Option Store)
    → (m ≡ none → R w)
    → ((s : Store) → m ≡ some s → I (put s w))
    → Post (λ u v. I v) F R (stored w m)
stored-Post w none r h = failed (r refl)
stored-Post w (some s) r h = handed (h s refl)

pub at_next :
    {A : Type 0} {P : A → World → Type 0} {F R : World → Type 0} (x : Outcome A) (a : A) (w : World)
    → Post P F R x
    → x ≡ next a w
    → P a w
at_next (next b v) a w (handed h) e =
    let same : b ≡ a = cc e in let world : v ≡ w = cc e in rw (← same, ← world) h
at_next (finished v) a w h e = absurd (cc e)
at_next (raised v) a w h e = absurd (cc e)

pub at_raised :
    {A : Type 0} {P : A → World → Type 0} {F R : World → Type 0} (x : Outcome A) (w : World)
    → Post P F R x
    → x ≡ raised w
    → R w
at_raised (next b v) w h e = absurd (cc e)
at_raised (finished v) w h e = absurd (cc e)
at_raised (raised v) w (failed h) e = let world : v ≡ w = cc e in rw (← world) h
