-- ===== src/Common/Sets.antt =====
-- A `Set` of texts as the list of its members in insertion order.
use Prim.Native.String.{String}
use mathlib.Core.Path.{◌≡◌, refl}
use mathlib.Core.Bool.{Bool, false, not, ◌||◌, ◌&&◌}
use mathlib.Core.List.{List, [], ◌∷◌, ◌++◌, foldl}
use native.Mathlib.Omega.{arith}
use text.Mathlib.Text.{◌==◌}
use text.Mathlib.TextEquality.{eq_iff}
use sentinelmesh.Common.Tests.{if◌then◌else◌, Bool-cases}
use mathlib.Core.Logic.{inl, inr}
use sentinelmesh.Common.Lists.{filter, includes, Distinct}

-- `set.add(x)`, `set.delete(x)`, `new Set(xs)`.
unfoldable pub add : List String → String → List String
add ids id = if includes id ids then ids else ids ++ (id ∷ [])

unfoldable pub remove : List String → String → List String
remove ids id = filter (λ x. not (x == id)) ids

unfoldable pub of_list : List String → List String
unfolding add
of_list xs = foldl add [] xs

pub includes-append :
    (k : String) (xs ys : List String) → includes k (xs ++ ys) ≡ (includes k xs || includes k ys)
includes-append k [] ys = refl
includes-append k (x ∷ xs) ys = ground (arith, includes-append k xs ys)

pub includes-filter :
    (k : String) (p : String → Bool) (xs : List String)
    → includes k (filter p xs) ≡ (p k && includes k xs)
includes-filter k p [] = ground arith
includes-filter k p (x ∷ xs) = elim (Bool-cases (x == k)) [
  | inl y ↦ rw ((eq_iff x k).0 y) (ground (arith, includes-filter k p xs, eq_iff k k))
  | inr n ↦ ground (arith, includes-filter k p xs)
]

pub includes-add :
    (k : String) (ids : List String) (id : String)
    → includes k (add ids id) ≡ (id == k || includes k ids)
unfolding add
includes-add k ids id = ground (arith, includes-append k ids (id ∷ []), eq_iff id k)

pub includes-remove :
    (k : String) (ids : List String) (id : String)
    → includes k (remove ids id) ≡ (not (k == id) && includes k ids)
unfolding remove
includes-remove k ids id = includes-filter k (λ x. not (x == id)) ids

pub includes-foldl-add :
    (k : String) (xs ids : List String)
    → includes k (foldl add ids xs) ≡ (includes k xs || includes k ids)
includes-foldl-add k [] ids = refl
includes-foldl-add k (x ∷ xs) ids =
    ground (arith, includes-foldl-add k xs (add ids x), includes-add k ids x)

pub includes-foldl-remove :
    (k : String) (xs ids : List String)
    → includes k (foldl remove ids xs) ≡ (not (includes k xs) && includes k ids)
includes-foldl-remove k [] ids = refl
includes-foldl-remove k (x ∷ xs) ids = ground (
  arith,
  includes-foldl-remove k xs (remove ids x),
  includes-remove k ids x,
  eq_iff x k,
  eq_iff k x,
)

pub Distinct-append :
    (ids : List String) (id : String)
    → Distinct ids
    → includes id ids ≡ false
    → Distinct (ids ++ (id ∷ []))
Distinct-append [] id h e = ground arith
Distinct-append (x ∷ ids) id h e =
    ground
      (arith, Distinct-append ids id h.1, includes-append x ids (id ∷ []), eq_iff x id, eq_iff id x)

pub Distinct-add : (ids : List String) (id : String) → Distinct ids → Distinct (add ids id)
unfolding add
Distinct-add ids id h = ground (arith, Distinct-append ids id h)

pub Distinct-remove : (ids : List String) (id : String) → Distinct ids → Distinct (remove ids id)
unfolding remove
Distinct-remove [] id h = tt
Distinct-remove (x ∷ ids) id h =
    ground (arith, Distinct-remove ids id h.1, includes-filter x (λ y. not (y == id)) ids)

pub Distinct-foldl-add : (xs ids : List String) → Distinct ids → Distinct (foldl add ids xs)
Distinct-foldl-add [] ids h = h
Distinct-foldl-add (x ∷ xs) ids h = Distinct-foldl-add xs (add ids x) (Distinct-add ids x h)

pub Distinct-foldl-remove : (xs ids : List String) → Distinct ids → Distinct (foldl remove ids xs)
Distinct-foldl-remove [] ids h = h
Distinct-foldl-remove (x ∷ xs) ids h =
    Distinct-foldl-remove xs (remove ids x) (Distinct-remove ids x h)

pub includes-of_list : (k : String) (xs : List String) → includes k (of_list xs) ≡ includes k xs
unfolding of_list
includes-of_list k xs = ground (arith, includes-foldl-add k xs [])

pub Distinct-of_list : (xs : List String) → Distinct (of_list xs)
unfolding of_list
Distinct-of_list xs = Distinct-foldl-add xs [] tt
