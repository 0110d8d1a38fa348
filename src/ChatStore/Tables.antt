-- ===== src/ChatStore/Tables.antt =====
-- Rows of an object store, kept in the order of their keys (apps/pwa/src/services/chat/chatStore.ts:
-- put, del), and what a later `get` reads.
use sentinelmesh.Common.{
  String, true, false, not, List, [], ◌∷◌, map, some, ◌==◌, ◌≡◌, refl, str_lt, if◌then◌else◌,
  filter, find_by, includes, Distinct, arith, eq_iff, str_lt_trans, str_lt_irrefl, str_lt_total,
}

module _ {ℓ} {A : Type ℓ} (key : A → String) where
  -- `put`: a row with the same key is replaced.
  unfoldable pub put_row : A → List A → List A
  put_row v [] = v ∷ []
  put_row v (x ∷ xs) =
      let rest = put_row v xs in
      if key v == key x then v ∷ xs else if str_lt (key v) (key x) then v ∷ x ∷ xs else x ∷ rest

  -- `delete`
  unfoldable pub delete_row : String → List A → List A
  delete_row k xs = filter (λ x. not (key x == k)) xs

  pub find_by-put_row :
      (k : String) (v : A) (xs : List A)
      → find_by key k (put_row v xs) ≡ (if key v == k then some v else find_by key k xs)
  unfolding put_row
  find_by-put_row k v [] = ground arith
  find_by-put_row k v (x ∷ xs) =
      ground
        (arith, eq_iff (key v) k, eq_iff (key v) (key x), eq_iff (key x) k, find_by-put_row k v xs)

  -- No later row has a smaller key.
  abbrev pub IsBelow : String → List A → Type 0
  IsBelow k [] = Unit
  IsBelow k (x ∷ xs) = (str_lt k (key x) ≡ true) × IsBelow k xs

  abbrev pub Ascending : List A → Type 0
  Ascending [] = Unit
  Ascending (x ∷ xs) = IsBelow (key x) xs × Ascending xs

  IsBelow-put :
      (k : String) (v : A) (xs : List A)
      → str_lt k (key v) ≡ true
      → IsBelow k xs
      → IsBelow k (put_row v xs)
  unfolding put_row
  IsBelow-put k v [] h b = (h, tt)
  IsBelow-put k v (x ∷ xs) h b = ground (arith, IsBelow-put k v xs h b.1)

  IsBelow-trans : (j k : String) (xs : List A) → str_lt j k ≡ true → IsBelow k xs → IsBelow j xs
  IsBelow-trans j k [] h b = tt
  IsBelow-trans j k (x ∷ xs) h b = (str_lt_trans j k (key x) h b.0, IsBelow-trans j k xs h b.1)

  pub put_row-Ascending : (v : A) (xs : List A) → Ascending xs → Ascending (put_row v xs)
  unfolding put_row
  put_row-Ascending v [] a = (tt, tt)
  put_row-Ascending v (x ∷ xs) a = ground (
    arith,
    eq_iff (key v) (key x),
    str_lt_total (key v) (key x),
    IsBelow-put (key x) v xs,
    IsBelow-trans (key v) (key x) xs,
    put_row-Ascending v xs a.1,
  )

  below_not_included : (k : String) (xs : List A) → IsBelow k xs → includes k (map key xs) ≡ false
  below_not_included k [] b = refl
  below_not_included k (x ∷ xs) b =
      ground (arith, eq_iff (key x) k, str_lt_irrefl k, below_not_included k xs b.1)

  pub Ascending-Distinct : (xs : List A) → Ascending xs → Distinct (map key xs)
  Ascending-Distinct [] a = tt
  Ascending-Distinct (x ∷ xs) a = (below_not_included (key x) xs a.0, Ascending-Distinct xs a.1)
