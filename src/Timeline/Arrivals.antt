-- ===== src/Timeline/Arrivals.antt =====
-- What a timeline holds once messages have arrived, in whatever order.
use sentinelmesh.Common.{
  ℕ, suc, ◌+◌, String, true, false, List, [], ◌∷◌, ◌++◌, map, foldl, none, some, ◌≡◌, refl, arith,
  ap, ap₂, subst, sym, ◌∙◌, ◌==◌, eq_iff, eq_refl, if◌then◌else◌, any, length, length-append,
  Bool-cases, inl, inr, includes, Distinct, includes_of_not_any, find_by, find_by-append,
  find_by_of_not_included, or_else, or_else_assoc, or_else-none, map-append,
}
use sentinelmesh.Common.Sets
use sentinelmesh.Timeline.{is_after, place, sort, insert_sorted}
use sentinelmesh.Timeline.Order.{
  AllBefore, IsTimeline, is_after_asymm, insert_sorted-IsTimeline, includes-sort,
  insert_all-IsTimeline,
}

module _ {ℓ} {M : Type ℓ} (id : M → String) (created_at : M → ℕ) where
  find_by-place :
      (k : String) (m : M) (xs : List M)
      → includes (id m) (map id xs) ≡ false
      → find_by id k (place id created_at m xs) ≡ (if id m == k then some m else find_by id k xs)
  unfolding place
  find_by-place k m [] h = refl
  find_by-place k m (x ∷ xs) h =
      ground (arith, find_by-place k m xs, eq_iff (id m) k, eq_iff (id x) k, eq_iff (id x) (id m))

  pub find_by-sort :
      (k : String) (xs : List M)
      → Distinct (map id xs)
      → find_by id k (sort id created_at xs) ≡ find_by id k xs
  unfolding sort
  find_by-sort k [] d = refl
  find_by-sort k (x ∷ xs) d =
      find_by-place k x (sort id created_at xs) (includes-sort id created_at (id x) xs ∙ d.0)
      ∙ rw (find_by-sort k xs d.1)

  absorbed :
      (k : String) (xs : List M) (m : M)
      → any (λ x. id x == id m) xs ≡ true
      → find_by id k xs ≡ or_else (find_by id k xs) (if id m == k then some m else none)
  absorbed k [] m h = absurd (ground arith)
  absorbed k (x ∷ xs) m h =
      ground (arith, absorbed k xs m, eq_iff (id x) (id m), eq_iff (id x) k, eq_iff (id m) k)

  Distinct-new :
      (xs : List M) (m : M)
      → Distinct (map id xs)
      → any (λ x. id x == id m) xs ≡ false
      → Distinct (map id (xs ++ (m ∷ [])))
  Distinct-new xs m d new =
      rw map-append
        (Sets.Distinct-append (map id xs) (id m) d (sym (includes_of_not_any id (id m) xs) ∙ new))

  -- The first message that arrives under an id stays.
  pub find_by-insert_sorted :
      (k : String) (xs : List M) (m : M)
      → Distinct (map id xs)
      → find_by id k (insert_sorted id created_at xs m)
        ≡ or_else (find_by id k xs) (if id m == k then some m else none)
  unfolding insert_sorted
  find_by-insert_sorted k xs m d = elim (Bool-cases (any (λ x. id x == id m) xs)) [
    | inl old ↦ rw old (absorbed k xs m old)
    | inr new ↦ rw new (
        find_by-sort k (xs ++ (m ∷ [])) (Distinct-new xs m d new) ∙ find_by-append id k xs (m ∷ []))
  ]

  find_by-insert_all :
      (k : String) (ms xs : List M)
      → IsTimeline id created_at xs
      → find_by id k (foldl (insert_sorted id created_at) xs ms)
        ≡ or_else (find_by id k xs) (find_by id k ms)
  find_by-insert_all k [] xs t = sym (or_else-none (find_by id k xs))
  find_by-insert_all k (m ∷ ms) xs t =
      find_by-insert_all k ms (insert_sorted id created_at xs m)
        (insert_sorted-IsTimeline id created_at xs m t)
      ∙ ap (λ o. or_else o (find_by id k ms)) (find_by-insert_sorted k xs m t.1)
      ∙ or_else_assoc (find_by id k xs) (if id m == k then some m else none) (find_by id k ms)
      ∙ ap (or_else (find_by id k xs)) (ground arith)

  not_after_of_find :
      (x y : M) (ys : List M)
      → AllBefore id created_at y ys
      → find_by id (id x) ys ≡ some x
      → is_after id created_at y x ≡ false
  not_after_of_find x y [] b h = absurd (ground arith)
  not_after_of_find x y (z ∷ ys) b h = elim (Bool-cases (id z == id x)) [
    | inl same ↦ ground arith
    | inr other ↦ not_after_of_find x y ys b.1 (rw other at h)
  ]

  -- The heads of two timelines with the same messages are the same message.
  heads :
      (x y : M) (xs ys : List M)
      → IsTimeline id created_at (x ∷ xs)
      → IsTimeline id created_at (y ∷ ys)
      → find_by id (id x) (y ∷ ys) ≡ some x
      → find_by id (id y) (x ∷ xs) ≡ some y
      → x ≡ y
  heads x y xs ys s t h k = elim (Bool-cases (id y == id x)) [
    | inl same ↦ ground arith
    | inr other ↦
        let other' : (id x == id y) ≡ false =
          ground (arith, eq_iff (id x) (id y), eq_iff (id y) (id x)) in
        let p = not_after_of_find x y ys t.0.0 (rw other at h) in
        let q = not_after_of_find y x xs s.0.0 (rw other' at k) in
        absurd (ground (arith, is_after_asymm id created_at x y q))
  ]

  tails :
      (x : M) (xs ys : List M) (k : String)
      → Distinct (map id (x ∷ xs))
      → Distinct (map id (x ∷ ys))
      → find_by id k (x ∷ xs) ≡ find_by id k (x ∷ ys)
      → find_by id k xs ≡ find_by id k ys
  tails x xs ys k d e h = elim (Bool-cases (id x == k)) [
    | inl same ↦
        let p = (eq_iff (id x) k).0 same in
        find_by_of_not_included id k xs (rw p at d.0)
        ∙ sym (find_by_of_not_included id k ys (rw p at e.0))
    | inr other ↦ ground arith
  ]

  -- Two timelines that hold the same message under each id are equal.
  pub timeline_ext :
      (xs ys : List M)
      → IsTimeline id created_at xs
      → IsTimeline id created_at ys
      → ((k : String) → find_by id k xs ≡ find_by id k ys)
      → xs ≡ ys
  timeline_ext [] [] s t h = refl
  timeline_ext [] (y ∷ ys) s t h = absurd (ground (arith, h (id y), eq_refl (id y)))
  timeline_ext (x ∷ xs) [] s t h = absurd (ground (arith, h (id x), eq_refl (id x)))
  timeline_ext (x ∷ xs) (y ∷ ys) s t h =
      let e : x ≡ y =
        heads x y xs ys s t (sym (h (id x)) ∙ rw (eq_refl (id x)))
          (h (id y) ∙ rw (eq_refl (id y))) in
      let t' : IsTimeline id created_at (x ∷ ys) =
        subst (λ z. IsTimeline id created_at (z ∷ ys)) (sym e) t in
      ap₂ ◌∷◌ e (
        timeline_ext xs ys (s.0.1, s.1.1) (t.0.1, t.1.1)
          (λ k.
            tails x xs ys k s.1 t'.1
              (subst (λ z. find_by id k (x ∷ xs) ≡ find_by id k (z ∷ ys)) (sym e) (h k))))

  -- The order in which messages arrive does not matter: two sequences of arrivals in which the
  -- first message under each id is the same leave the same list, from any timeline.
  pub insert_all-order_free :
      (ms ns xs : List M)
      → IsTimeline id created_at xs
      → ((k : String) → find_by id k ms ≡ find_by id k ns)
      → foldl (insert_sorted id created_at) xs ms ≡ foldl (insert_sorted id created_at) xs ns
  insert_all-order_free ms ns xs t h =
      timeline_ext _ _ (insert_all-IsTimeline id created_at ms xs t)
        (insert_all-IsTimeline id created_at ns xs t)
        (λ k.
          find_by-insert_all k ms xs t
          ∙ ap (or_else (find_by id k xs)) (h k)
          ∙ sym (find_by-insert_all k ns xs t))

  length-place : (m : M) (xs : List M) → length (place id created_at m xs) ≡ suc (length xs)
  unfolding place
  length-place m [] = refl
  length-place m (x ∷ xs) = ground (arith, length-place m xs)

  length-sort : (xs : List M) → length (sort id created_at xs) ≡ length xs
  unfolding sort
  length-sort [] = refl
  length-sort (x ∷ xs) = ground (arith, length-place x (sort id created_at xs), length-sort xs)

  -- The list grows by one exactly when the id is new.
  pub length-insert_sorted :
      (xs : List M) (m : M)
      → length (insert_sorted id created_at xs m)
        ≡ (if includes (id m) (map id xs) then length xs else length xs + 1)
  unfolding insert_sorted
  length-insert_sorted xs m = ground (
    arith,
    includes_of_not_any id (id m) xs,
    length-sort (xs ++ (m ∷ [])),
    length-append xs (m ∷ []),
  )
