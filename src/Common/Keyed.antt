-- ===== src/Common/Keyed.antt =====
-- Arrays of records that carry an id: what finding, overwriting and adding by id do to the ids
-- and to what a later find returns.
use Prim.Native.Nat.{ℕ, zero, suc}
use Prim.Native.String.{String}
use mathlib.Core.Path.{◌≡◌, refl, ap, ◌∙◌}
use mathlib.Core.Bool.{Bool, true, false}
use mathlib.Core.List.{List, [], ◌∷◌, ◌++◌, map}
use mathlib.Core.Option.{Option, none, some}
use native.Mathlib.Omega.{arith}
use text.Mathlib.Text.{◌==◌}
use text.Mathlib.TextEquality.{eq_iff}
use mathlib.Core.Logic.{◌⊎◌, inl, inr}
use sentinelmesh.Common.Tests.{ltb, if◌then◌else◌, Bool-cases, Option-cases}
use sentinelmesh.Common.Lists.{
  get_elem?, set, take, length, truncate, filter, find, find_index, keep_if, or_else, any, includes,
  Distinct, get_elem?-find_index, find_of_find_index-none, find_of_find_index-some,
}

module _ {ℓ} {A : Type ℓ} (key : A → String) where
  -- `xs.find(x => x.id === k)` and `xs.findIndex(x => x.id === k)`.
  abbrev pub find_by : String → List A → Option A
  find_by k xs = find (λ x. key x == k) xs

  abbrev pub index_by : String → List A → Option ℕ
  index_by k xs = find_index (λ x. key x == k) xs

  pub find_by-set :
      (k j : String) (xs : List A) (i : ℕ) (v : A)
      → index_by k xs ≡ some i
      → key v ≡ k
      → find_by j (set xs i v) ≡ (if k == j then some v else find_by j xs)
  find_by-set k j [] i v h e = ground arith
  find_by-set k j (x ∷ xs) zero v h e =
      ground (arith, eq_iff (key x) k, eq_iff k j, eq_iff (key x) j, eq_iff (key v) j)
  find_by-set k j (x ∷ xs) (suc i) v h e =
      ground (arith, eq_iff (key x) k, eq_iff k j, eq_iff (key x) j, find_by-set k j xs i v)

  pub map-key-set :
      (k : String) (xs : List A) (i : ℕ) (v : A)
      → index_by k xs ≡ some i
      → key v ≡ k
      → map key (set xs i v) ≡ map key xs
  map-key-set k [] i v h e = refl
  map-key-set k (x ∷ xs) zero v h e = ground (arith, eq_iff (key x) k)
  map-key-set k (x ∷ xs) (suc i) v h e =
      ap (◌∷◌ (key x)) (map-key-set k xs i v (ground (arith, eq_iff (key x) k)) e)

  pub includes_of_index_none :
      (k : String) (xs : List A) → index_by k xs ≡ none → includes k (map key xs) ≡ false
  includes_of_index_none k [] h = refl
  includes_of_index_none k (x ∷ xs) h = ground (arith, includes_of_index_none k xs)

  pub includes_of_index_some :
      (k : String) (xs : List A) (i : ℕ) → index_by k xs ≡ some i → includes k (map key xs) ≡ true
  includes_of_index_some k [] i h = absurd (ground arith)
  includes_of_index_some k (x ∷ xs) zero h = ground arith
  includes_of_index_some k (x ∷ xs) (suc i) h = ground (arith, includes_of_index_some k xs i)

  pub includes_of_not_any :
      (k : String) (xs : List A) → any (λ x. key x == k) xs ≡ includes k (map key xs)
  includes_of_not_any k [] = refl
  includes_of_not_any k (x ∷ xs) = ground (arith, includes_of_not_any k xs)

  pub find_by-key : (k : String) (xs : List A) (v : A) → find_by k xs ≡ some v → key v ≡ k
  find_by-key k [] v h = absurd (ground arith)
  find_by-key k (x ∷ xs) v h = ground (arith, eq_iff (key x) k, find_by-key k xs v)

  -- What `findIndex` by id comes to: no element has the id, or the first that has it is read at
  -- the index.
  pub locate :
      (k : String) (xs : List A)
      → ((index_by k xs ≡ none) × (find_by k xs ≡ none))
        ⊎ ((i : ℕ) × (x : A) × (index_by k xs ≡ some i)
            × (get_elem? xs i ≡ some x)
            × (find_by k xs ≡ some x)
            × (key x ≡ k))
  locate k xs = elim (Option-cases (index_by k xs)) [
    | inl e ↦ inl (e, find_of_find_index-none _ xs e)
    | inr (i, e) ↦
        let (x, f, g) = find_of_find_index-some (λ x. key x == k) xs i e in
        inr (i, x, e, get_elem?-find_index _ xs i e ∙ f, f, (eq_iff _ _).0 g)
  ]

  includes_of_take :
      (k : String) (n : ℕ) (xs : List A)
      → includes k (map key xs) ≡ false
      → includes k (map key (take n xs)) ≡ false
  includes_of_take k zero xs h = refl
  includes_of_take k (suc n) [] h = refl
  includes_of_take k (suc n) (x ∷ xs) h = ground (arith, includes_of_take k n xs)

  pub Distinct-take : (n : ℕ) (xs : List A) → Distinct (map key xs) → Distinct (map key (take n xs))
  Distinct-take zero xs h = tt
  Distinct-take (suc n) [] h = tt
  Distinct-take (suc n) (x ∷ xs) h = (includes_of_take (key x) n xs h.0, Distinct-take n xs h.1)

  pub Distinct-truncate :
      (n : ℕ) (xs : List A) → Distinct (map key xs) → Distinct (map key (truncate n xs))
  unfolding truncate
  Distinct-truncate n xs d = elim (Bool-cases (ltb n (length xs))) [
    | inl long ↦ rw (long, truncate) (Distinct-take n xs d)
    | inr short ↦ rw (short, truncate) d
  ]

  includes_of_filter :
      (k : String) (p : A → Bool) (xs : List A)
      → includes k (map key xs) ≡ false
      → includes k (map key (filter p xs)) ≡ false
  includes_of_filter k p [] h = refl
  includes_of_filter k p (x ∷ xs) h = ground (arith, includes_of_filter k p xs)

  pub Distinct-filter :
      (p : A → Bool) (xs : List A) → Distinct (map key xs) → Distinct (map key (filter p xs))
  Distinct-filter p [] h = tt
  Distinct-filter p (x ∷ xs) h =
      ground (arith, includes_of_filter (key x) p xs h.0, Distinct-filter p xs h.1)

  pub find_by-append :
      (k : String) (xs ys : List A) → find_by k (xs ++ ys) ≡ or_else (find_by k xs) (find_by k ys)
  find_by-append k [] ys = refl
  find_by-append k (x ∷ xs) ys = ground (arith, find_by-append k xs ys)

  pub find_by_of_not_included :
      (k : String) (xs : List A) → includes k (map key xs) ≡ false → find_by k xs ≡ none
  find_by_of_not_included k [] h = refl
  find_by_of_not_included k (x ∷ xs) h = ground (arith, find_by_of_not_included k xs)

  -- Where no id stands twice, filtering by a test and then finding by id is finding, then testing.
  pub find_by-filter :
      (p : A → Bool) (k : String) (xs : List A)
      → Distinct (map key xs)
      → find_by k (filter p xs) ≡ keep_if p (find_by k xs)
  find_by-filter p k [] d = refl
  find_by-filter p k (x ∷ xs) d = ground (
    arith,
    eq_iff (key x) k,
    find_by-filter p k xs d.1,
    find_by_of_not_included k (filter p xs),
    includes_of_filter (key x) p xs d.0,
  )
