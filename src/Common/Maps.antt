-- ===== src/Common/Maps.antt =====
-- A JavaScript object used as a map from texts, as the function that reads it. The code never
-- depends on the order of such an object's keys.
use Prim.Native.String.{String}
use mathlib.Core.Bool.{Bool, false}
use mathlib.Core.Option.{Option, none, some}
use mathlib.Core.Path.{◌≡◌}
use native.Mathlib.Omega.{arith}
use text.Mathlib.Text.{◌==◌}
use sentinelmesh.Common.Tests.{if◌then◌else◌}

abbrev pub Dict {ℓ} : Type ℓ → Type ℓ
Dict V = String → Option V

module _ {ℓ} {V : Type ℓ} where
  abbrev pub empty : Dict V
  empty k = none

  -- `m[k] = v`, `delete m[k]`, and the loop over the entries that deletes those that pass a test.
  abbrev pub put : String → V → Dict V → Dict V
  put k v m = λ j. if k == j then some v else m j

  abbrev pub delete : String → Dict V → Dict V
  delete k m = λ j. if k == j then none else m j

  abbrev pub drop_if : (V → Bool) → Option V → Option V
  drop_if p none = none
  drop_if p (some v) = if p v then none else some v

  abbrev pub delete_if : (V → Bool) → Dict V → Dict V
  delete_if p m = λ j. drop_if p (m j)

  pub drop_if-some :
      (p : V → Bool) (o : Option V) {v : V} → drop_if p o ≡ some v → (o ≡ some v) × (p v ≡ false)
  drop_if-some p none h = absurd (ground arith)
  drop_if-some p (some w) h = ground arith

  -- `m[k] ?? d`
  abbrev pub get_or : V → Option V → V
  get_or d none = d
  get_or d (some v) = v
