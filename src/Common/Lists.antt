-- ===== src/Common/Lists.antt =====
-- Arrays as lists: indices and lengths are native numbers, tests are Boolean functions.
use Prim.Native.Nat.{ℕ, zero, suc, ◌+◌, ◌≤◌, ◌<◌}
use Prim.Native.String.{String}
use mathlib.Core.Path.{◌≡◌, refl, ap}
use mathlib.Core.Bool.{Bool, true, false, ◌||◌}
use mathlib.Core.List.{List, [], ◌∷◌, ◌++◌}
use mathlib.Core.Option
use mathlib.Core.Option.{Option, none, some}
use native.Mathlib.Omega.{arith}
use text.Mathlib.Text.{◌==◌}
use mathlib.Core.Logic.{inl, inr}
use sentinelmesh.Common.Tests.{ltb, if◌then◌else◌, Bool-cases, Option-cases}

module _ {ℓ} {A : Type ℓ} where
  abbrev pub length : List A → ℕ
  length [] = 0
  length (x ∷ xs) = suc (length xs)

  abbrev pub get_elem? : List A → ℕ → Option A
  get_elem? [] i = none
  get_elem? (x ∷ xs) zero = some x
  get_elem? (x ∷ xs) (suc i) = get_elem? xs i

  -- A write to an index that the array has; any other changes nothing.
  abbrev pub set : List A → ℕ → A → List A
  set [] i v = []
  set (x ∷ xs) zero v = v ∷ xs
  set (x ∷ xs) (suc i) v = x ∷ set xs i v

  -- `xs.slice(0, n)`, and `xs.length = n` on a longer array.
  abbrev pub take : ℕ → List A → List A
  take zero xs = []
  take (suc n) [] = []
  take (suc n) (x ∷ xs) = x ∷ take n xs

  -- `xs.slice(n)`
  abbrev pub drop : ℕ → List A → List A
  drop zero xs = xs
  drop (suc n) [] = []
  drop (suc n) (x ∷ xs) = drop n xs

  pub take-append : (xs ys : List A) → take (length xs) (xs ++ ys) ≡ xs
  take-append [] ys = refl
  take-append (x ∷ xs) ys = ap (λ t. x ∷ t) (take-append xs ys)

  pub drop-append : (xs ys : List A) → drop (length xs) (xs ++ ys) ≡ ys
  drop-append [] ys = refl
  drop-append (x ∷ xs) ys = drop-append xs ys

  -- `xs.some(p)`, `xs.filter(p)`, `xs.find(p)`, `xs.findIndex(p)` with `none` for -1.
  abbrev pub any : (A → Bool) → List A → Bool
  any p [] = false
  any p (x ∷ xs) = p x || any p xs

  abbrev pub filter : (A → Bool) → List A → List A
  filter p [] = []
  filter p (x ∷ xs) = let rest = filter p xs in if p x then x ∷ rest else rest

  abbrev pub find : (A → Bool) → List A → Option A
  find p [] = none
  find p (x ∷ xs) = if p x then some x else find p xs

  abbrev pub find_index : (A → Bool) → List A → Option ℕ
  find_index p [] = none
  find_index p (x ∷ xs) = if p x then some 0 else Option.map suc (find_index p xs)

  -- `a ?? b`, where both may be missing.
  abbrev pub or_else : Option A → Option A → Option A
  or_else none o = o
  or_else (some a) o = some a

  -- An option, filtered.
  abbrev pub keep_if : (A → Bool) → Option A → Option A
  keep_if p none = none
  keep_if p (some x) = if p x then some x else none

  pub length-append : (xs ys : List A) → length (xs ++ ys) ≡ length xs + length ys
  length-append [] ys = omega arith
  length-append (x ∷ xs) ys = omega (arith, length-append xs ys)

  pub length-take-le : (n : ℕ) (xs : List A) → length (take n xs) ≤ n
  length-take-le zero xs = omega arith
  length-take-le (suc n) [] = omega arith
  length-take-le (suc n) (x ∷ xs) = omega (arith, length-take-le n xs)

  pub length-set : (xs : List A) (i : ℕ) (v : A) → length (set xs i v) ≡ length xs
  length-set [] i v = refl
  length-set (x ∷ xs) zero v = refl
  length-set (x ∷ xs) (suc i) v = ap suc (length-set xs i v)

  pub get_elem?-find_index :
      (p : A → Bool) (xs : List A) (i : ℕ) → find_index p xs ≡ some i → get_elem? xs i ≡ find p xs
  get_elem?-find_index p [] i h = refl
  get_elem?-find_index p (x ∷ xs) zero h = ground arith
  get_elem?-find_index p (x ∷ xs) (suc i) h = ground (arith, get_elem?-find_index p xs i)

  pub find_of_find_index-none :
      (p : A → Bool) (xs : List A) → find_index p xs ≡ none → find p xs ≡ none
  find_of_find_index-none p [] h = refl
  find_of_find_index-none p (x ∷ xs) h = ground (arith, find_of_find_index-none p xs)

  pub find_of_find_index-some :
      (p : A → Bool) (xs : List A) (i : ℕ)
      → find_index p xs ≡ some i
      → (x : A) × (find p xs ≡ some x) × (p x ≡ true)
  find_of_find_index-some p [] i h = absurd (ground arith)
  find_of_find_index-some p (x ∷ xs) i h = elim (Bool-cases (p x)) [
    | inl y ↦ (x, rw y, y)
    | inr n ↦ elim (Option-cases (find_index p xs)) [
      | inl e ↦ absurd (ground arith)
      | inr (k, e) ↦ let (v, f, g) = find_of_find_index-some p xs k e in (v, rw n f, g)
    ]
  ]

module _ {ℓ} {A : Type ℓ} where
  -- `if (xs.length > n) xs.length = n`
  unfoldable pub truncate : ℕ → List A → List A
  truncate n xs = if ltb n (length xs) then take n xs else xs

  pub length-truncate-le : (n : ℕ) (xs : List A) → length (truncate n xs) ≤ n
  unfolding truncate
  length-truncate-le n xs = ground (arith, length-take-le n xs)

  pub truncate_of_length-le : (n : ℕ) (xs : List A) → length xs ≤ n → truncate n xs ≡ xs
  unfolding truncate
  truncate_of_length-le n xs h = ground arith

  pub truncate-cons :
      (n : ℕ) (x : A) (xs : List A) → 0 < n → (ys : List A) × (truncate n (x ∷ xs) ≡ x ∷ ys)
  unfolding truncate
  truncate-cons zero x xs h = elim h [ ]
  truncate-cons (suc n) x xs h = elim (Bool-cases (ltb (suc n) (length (x ∷ xs)))) [
    | inl long ↦ (take n xs, rw long)
    | inr short ↦ (xs, rw short)
  ]

pub or_else_assoc {ℓ} :
    {A : Type ℓ} (a b c : Option A) → or_else (or_else a b) c ≡ or_else a (or_else b c)
or_else_assoc none b c = refl
or_else_assoc (some a) b c = refl

pub or_else-none {ℓ} : {A : Type ℓ} (a : Option A) → or_else a none ≡ a
or_else-none none = refl
or_else-none (some a) = refl

-- `xs.includes(k)`, and membership in a `Set` of texts.
abbrev pub includes : String → List String → Bool
includes k [] = false
includes k (x ∷ xs) = x == k || includes k xs

-- No text stands twice.
abbrev pub Distinct : List String → Type 0
Distinct [] = Unit
Distinct (x ∷ xs) = (includes x xs ≡ false) × Distinct xs

pub length-filter-le {ℓ} :
    {A : Type ℓ} (p : A → Bool) (xs : List A) → length (filter p xs) ≤ length xs
length-filter-le p [] = omega arith
length-filter-le p (x ∷ xs) = ground (arith, length-filter-le p xs)
