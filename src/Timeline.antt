-- ===== src/Timeline.antt =====
-- The message lists of the chat: the comparator and the insertion that chatSlice.ts and dmSlice.ts
-- (apps/pwa/src/store) both define, over any kind of message that has an id and a time. `sort` is
-- the array method: it is stable, and this comparator leaves it one result where ids are distinct,
-- so an insertion sort stands for it.
pub mod Order
pub mod Arrivals
use sentinelmesh.Common.{
  ℕ, String, Bool, true, false, not, List, [], ◌∷◌, ◌++◌, ◌==◌, eqb, ltb, str_lt, if◌then◌else◌,
  any, foldl,
}

module _ {ℓ} {M : Type ℓ} (id : M → String) (created_at : M → ℕ) where
  -- `a.created_at - b.created_at || (a.id < b.id ? -1 : 1)` is positive.
  unfoldable pub is_after : M → M → Bool
  is_after a b =
      if eqb (created_at a) (created_at b)
      then not (str_lt (id a) (id b))
      else ltb (created_at b) (created_at a)

  unfoldable pub place : M → List M → List M
  place m [] = m ∷ []
  place m (x ∷ xs) = let rest = place m xs in if is_after m x then x ∷ rest else m ∷ x ∷ xs

  unfoldable pub sort : List M → List M
  sort [] = []
  sort (x ∷ xs) = place x (sort xs)

  unfoldable pub insert_sorted : List M → M → List M
  insert_sorted messages message =
      if any (λ m. id m == id message) messages then messages else sort (messages ++ (message ∷ []))
