-- ===== src/Base/Steps.antt =====
-- Steps that change a state: `none` is a fault, or the end of the program by abort.
use mathlib.Core.Option.{Option, none, some}

abbrev pub Steps : Type 0 → Type 0 → Type 0
Steps S A = S → Option (A × S)

module _ {S : Type 0} where
  abbrev pub pure : {A : Type 0} → A → Steps S A
  pure a s = some (a, s)

  infixl 5 ◌>>=◌ ◌>>◌
  abbrev pub ◌>>=◌ : {A B : Type 0} → Steps S A → (A → Steps S B) → Steps S B
  ◌>>=◌ m f s = elim (m s) [ none ↦ none | some (a, s') ↦ f a s' ]

  abbrev pub ◌>>◌ : {B : Type 0} → Steps S (Unit {0}) → Steps S B → Steps S B
  m >> k = m >>= λ _. k

  abbrev pub modify : (S → S) → Steps S (Unit {0})
  modify f s = some (tt, f s)

  abbrev pub gets : {A : Type 0} → (S → A) → Steps S A
  gets f s = some (f s, s)
