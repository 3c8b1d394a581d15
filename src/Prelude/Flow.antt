-- ===== src/Prelude/Flow.antt =====
-- A C function body over a state `S` that returns an `R`: each statement goes on with a value, or
-- stops the function by a `return`.
use mathlib.Core.Bool.{Bool, true, false}

pub data Flow (R S A : Type 0) : Type 0 where
  stop : R → S → Flow R S A
  go : A → S → Flow R S A

abbrev pub Body : Type 0 → Type 0 → Type 0 → Type 0
Body R S A = S → Flow R S A

-- A whole function: its result and the state that it leaves.
abbrev pub Function : Type 0 → Type 0 → Type 0
Function R S = S → R × S

module _ {R S A B : Type 0} where
  abbrev pub then_do : Flow R S A → (A → Body R S B) → Flow R S B
  then_do (stop r s) f = stop r s
  then_do (go a s) f = f a s

  infixl 5 ◌>>=◌ ◌>>◌
  abbrev pub ◌>>=◌ : Body R S A → (A → Body R S B) → Body R S B
  m >>= f = λ s. then_do (m s) f

  abbrev pub ◌>>◌ : Body R S A → Body R S B → Body R S B
  m >> k = λ s. then_do (m s) (λ _. k)

module _ {R S : Type 0} where
  -- `return r;`
  abbrev pub ret : {A : Type 0} → R → Body R S A
  ret r s = stop r s

  abbrev pub pure : {A : Type 0} → A → Body R S A
  pure a s = go a s

  abbrev pub read : Body R S S
  read s = go s s

  abbrev pub modify : (S → S) → Body R S (Unit {0})
  modify f s = go tt (f s)

  -- `if (test) statement;`
  abbrev pub when : Bool → Body R S (Unit {0}) → Body R S (Unit {0})
  when true m = m
  when false m = λ s. go tt s

  -- The value of a call of a function over the same state.
  abbrev pub call : {Q : Type 0} → Function Q S → Body R S Q
  call f s = let (q, s') = f s in go q s'

  -- A body whose every path returns, as a function.
  abbrev pub result_of : Flow R S R → R × S
  result_of (stop r s) = (r, s)
  result_of (go r s) = (r, s)

  abbrev pub function : Body R S R → Function R S
  function m s = result_of (m s)
