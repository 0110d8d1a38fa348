-- ===== src/Common/Outcomes.antt =====
-- Early returns: a chain of steps that may give nothing, and one of steps that may throw. An error is
-- the text of its message.
use Prim.Native.String.{String}
use mathlib.Core.Path.{◌≡◌, refl}
use mathlib.Core.Bool.{Bool, true, false}
use mathlib.Core.Logic.{◌⊎◌, inl, inr}
use mathlib.Core.Option.{Option, none, some}
use native.Mathlib.Omega.{arith}

module _ {ℓ} {A B : Type ℓ} where
  abbrev pub and_then : Option A → (A → Option B) → Option B
  and_then none f = none
  and_then (some a) f = f a

  pub and_then-some :
      (o : Option A) (f : A → Option B) {b : B}
      → and_then o f ≡ some b
      → (a : A) × (o ≡ some a) × (f a ≡ some b)
  and_then-some none f h = absurd (ground arith)
  and_then-some (some a) f h = (a, refl, h)

  -- The first error ends the chain.
  abbrev pub try_then : String ⊎ A → (A → String ⊎ B) → String ⊎ B
  try_then (inl error) f = inl error
  try_then (inr a) f = f a

  pub try_then-inr :
      (r : String ⊎ A) (f : A → String ⊎ B) {b : B}
      → try_then r f ≡ inr b
      → (a : A) × (r ≡ inr a) × (f a ≡ inr b)
  try_then-inr (inl error) f h = absurd (ground arith)
  try_then-inr (inr a) f h = (a, refl, h)

module _ {ℓ} {A : Type ℓ} where
  abbrev pub only_if : Bool → Option A → Option A
  only_if true o = o
  only_if false o = none

  pub only_if-some :
      (b : Bool) (o : Option A) {a : A} → only_if b o ≡ some a → (b ≡ true) × (o ≡ some a)
  only_if-some true o h = (refl, h)
  only_if-some false o h = absurd (ground arith)

  -- `if (!test) throw new Error(message)`
  abbrev pub require : Bool → String → String ⊎ A → String ⊎ A
  require true message r = r
  require false message r = inl message

  pub require-inr :
      (b : Bool) (message : String) (r : String ⊎ A) {a : A}
      → require b message r ≡ inr a
      → (b ≡ true) × (r ≡ inr a)
  require-inr true message r h = (refl, h)
  require-inr false message r h = absurd (ground arith)

  abbrev pub or_throw : Option A → String → String ⊎ A
  or_throw none message = inl message
  or_throw (some a) message = inr a
