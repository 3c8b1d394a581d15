-- ===== src/Prelude/Ends.antt =====
-- What holds at the end of a C function body, by its statements.
use mathlib.Core.Path.{◌≡◌, refl}
use mathlib.Core.Bool.{Bool, true, false}
use ledger_app_ergo.Prelude.Flow.{Body, then_do, result_of, when}

module _ {R S : Type 0} (F : R × S → Type 0) where
  -- A statement under a condition, and the rest of the body.
  pub Ends-when :
      (b : Bool) (m : Body R S (Unit {0})) (s : S) (k : Unit {0} → Body R S R)
      → (b ≡ true → F (result_of (then_do (m s) k)))
      → (b ≡ false → F (result_of (k tt s)))
      → F (result_of (then_do (when b m s) k))
  Ends-when true m s k taken skipped = taken refl
  Ends-when false m s k taken skipped = skipped refl
