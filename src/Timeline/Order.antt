-- ===== src/Timeline/Order.antt =====
-- The lists that insertion keeps: sorted by time and then by id, with no id twice.
use sentinelmesh.Common.{
  ℕ, String, true, false, List, [], ◌∷◌, ◌++◌, map, foldl, ◌≡◌, ◌≢◌, refl, arith, sym, ◌∙◌, ◌==◌,
  ◌||◌, eq_iff, eq_refl, str_lt_trans, str_lt_total, str_lt_asymm, any, Bool-cases, inl, inr,
  includes, Distinct, includes_of_not_any, map-append,
}
use sentinelmesh.Common.Sets
use sentinelmesh.Timeline.{is_after, place, sort, insert_sorted}

module _ {ℓ} {M : Type ℓ} (id : M → String) (created_at : M → ℕ) where
  abbrev pub AllBefore : M → List M → Type 0
  AllBefore m [] = Unit
  AllBefore m (x ∷ xs) = (is_after id created_at m x ≡ false) × AllBefore m xs

  abbrev pub IsSorted : List M → Type 0
  IsSorted [] = Unit
  IsSorted (x ∷ xs) = AllBefore x xs × IsSorted xs

  abbrev pub IsTimeline : List M → Type 0
  IsTimeline xs = IsSorted xs × Distinct (map id xs)

  -- Of two messages with different ids, exactly one comes first.
  pub is_after_asymm :
      (a b : M) → is_after id created_at a b ≡ false → is_after id created_at b a ≡ true
  unfolding is_after
  is_after_asymm a b h = ground (arith, str_lt_asymm (id a) (id b))

  is_after_total :
      (a b : M)
      → id a ≢ id b
      → is_after id created_at a b ≡ true
      → is_after id created_at b a ≡ false
  unfolding is_after
  is_after_total a b n h = ground (arith, str_lt_total (id a) (id b))

  is_after_trans :
      (a b c : M)
      → is_after id created_at a b ≡ false
      → is_after id created_at b c ≡ false
      → is_after id created_at a c ≡ false
  unfolding is_after
  is_after_trans a b c h k = ground (arith, str_lt_trans (id a) (id b) (id c))

  AllBefore-trans :
      (a b : M) (xs : List M) → is_after id created_at a b ≡ false → AllBefore b xs → AllBefore a xs
  AllBefore-trans a b [] h k = tt
  AllBefore-trans a b (x ∷ xs) h k = (is_after_trans a b x h k.0, AllBefore-trans a b xs h k.1)

  AllBefore-place :
      (a m : M) (xs : List M)
      → is_after id created_at a m ≡ false
      → AllBefore a xs
      → AllBefore a (place id created_at m xs)
  unfolding place
  AllBefore-place a m [] h k = (h, tt)
  AllBefore-place a m (x ∷ xs) h k = elim (Bool-cases (is_after id created_at m x)) [
    | inl y ↦ rw y (k.0, AllBefore-place a m xs h k.1)
    | inr n ↦ rw n (h, k)
  ]

  ne-head : (m x : M) (xs : List M) → includes (id m) (map id (x ∷ xs)) ≡ false → id m ≢ id x
  ne-head m x xs h e = ground (arith, eq_iff (id x) (id m))

  IsSorted-place :
      (m : M) (xs : List M)
      → includes (id m) (map id xs) ≡ false
      → IsSorted xs
      → IsSorted (place id created_at m xs)
  unfolding place
  IsSorted-place m [] h s = (tt, tt)
  IsSorted-place m (x ∷ xs) h s = elim (Bool-cases (is_after id created_at m x)) [
    | inl y ↦ rw y (
      AllBefore-place x m xs (is_after_total m x (ne-head m x xs h) y) s.0,
      IsSorted-place m xs (ground arith) s.1,
    )
    | inr n ↦ rw n ((n, AllBefore-trans m x xs n s.0), s)
  ]

  pub includes-place :
      (k : String) (m : M) (xs : List M)
      → includes k (map id (place id created_at m xs)) ≡ (id m == k || includes k (map id xs))
  unfolding place
  includes-place k m [] = refl
  includes-place k m (x ∷ xs) = ground (arith, includes-place k m xs)

  Distinct-place :
      (m : M) (xs : List M)
      → includes (id m) (map id xs) ≡ false
      → Distinct (map id xs)
      → Distinct (map id (place id created_at m xs))
  unfolding place
  Distinct-place m [] h d = (refl, tt)
  Distinct-place m (x ∷ xs) h d = ground (
    arith,
    Distinct-place m xs,
    includes-place (id x) m xs,
    eq_iff (id m) (id x),
    eq_iff (id x) (id m),
  )

  pub includes-sort :
      (k : String) (xs : List M)
      → includes k (map id (sort id created_at xs)) ≡ includes k (map id xs)
  unfolding sort
  includes-sort k [] = refl
  includes-sort k (x ∷ xs) =
      ground (arith, includes-place k x (sort id created_at xs), includes-sort k xs)

  -- `sort` on messages with distinct ids gives a timeline.
  pub sort-IsTimeline : (xs : List M) → Distinct (map id xs) → IsTimeline (sort id created_at xs)
  unfolding sort
  sort-IsTimeline [] d = (tt, tt)
  sort-IsTimeline (x ∷ xs) d =
      let (s, e) = sort-IsTimeline xs d.1 in
      let new : includes (id x) (map id (sort id created_at xs)) ≡ false =
        includes-sort (id x) xs ∙ d.0 in
      (
        IsSorted-place x (sort id created_at xs) new s,
        Distinct-place x (sort id created_at xs) new e,
      )

  pub insert_sorted-IsTimeline :
      (xs : List M) (m : M) → IsTimeline xs → IsTimeline (insert_sorted id created_at xs m)
  unfolding insert_sorted
  insert_sorted-IsTimeline xs m t = elim (Bool-cases (any (λ x. id x == id m) xs)) [
    | inl old ↦ rw old t
    | inr new ↦ rw new (
        sort-IsTimeline (xs ++ (m ∷ [])) (
          rw map-append (
            Sets.Distinct-append (map id xs) (id m) t.1
              (sym (includes_of_not_any id (id m) xs) ∙ new))))
  ]

  pub insert_all-IsTimeline :
      (ms xs : List M) → IsTimeline xs → IsTimeline (foldl (insert_sorted id created_at) xs ms)
  insert_all-IsTimeline [] xs t = t
  insert_all-IsTimeline (m ∷ ms) xs t =
      insert_all-IsTimeline ms (insert_sorted id created_at xs m) (insert_sorted-IsTimeline xs m t)

  pub includes-insert_sorted_self :
      (xs : List M) (m : M) → includes (id m) (map id (insert_sorted id created_at xs m)) ≡ true
  unfolding insert_sorted
  includes-insert_sorted_self xs m = elim (Bool-cases (any (λ x. id x == id m) xs)) [
    | inl old ↦ rw old (sym (includes_of_not_any id (id m) xs) ∙ old)
    | inr new ↦
        rw (new, includes-sort, map-append, Sets.includes-append)
          (ground (arith, eq_refl (id m), includes_of_not_any id (id m) xs))
  ]
