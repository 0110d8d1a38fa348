-- ===== src/View/Laws.antt =====
-- The selected route is one of the alternatives; the safety log is a window on all that was logged.
use sentinelmesh.Common.{
  ℕ, ◌≤◌, suc, zero, List, [], ◌∷◌, Option, none, some, ◌≡◌, refl, ap, sym, ◌∙◌, foldl, get_elem?,
  take, length, ltb, arith, Option-cases, Bool-cases, inl, inr, length-take-le, or_else,
}
use sentinelmesh.View.Routes
use sentinelmesh.View.Routes.{UiState, UiAction, HomeRoute, reducer}
use sentinelmesh.View.Log.{SafetyLogEntry, log_safety_event, pop}

-- Whether the selected route, if there is one, stands among the alternatives.
abbrev pub IsOffered : Option HomeRoute → List HomeRoute → Type 0
IsOffered none routes = Unit
IsOffered (some r) routes = (i : ℕ) × (get_elem? routes i ≡ some r)

IsOffered-get_elem? : (routes : List HomeRoute) (i : ℕ) → IsOffered (get_elem? routes i) routes
IsOffered-get_elem? routes i = elim (Option-cases (get_elem? routes i)) [
  | inl e ↦ rw e tt
  | inr (r, e) ↦ rw e (i, e)
]

IsOffered-or_else :
    (o p : Option HomeRoute) (routes : List HomeRoute)
    → IsOffered o routes
    → IsOffered p routes
    → IsOffered (or_else o p) routes
IsOffered-or_else none p routes h k = k
IsOffered-or_else (some r) p routes h k = h

reducer-IsOffered :
    (s : UiState) (action : UiAction)
    → IsOffered s.home_route s.home_routes
    → IsOffered (reducer s action).home_route (reducer s action).home_routes
unfolding reducer
reducer-IsOffered s (Routes.set_overlay_intent name) h = h
reducer-IsOffered s Routes.consume_overlay_intent h = h
reducer-IsOffered s (Routes.safe_routes_set rs) h = h
reducer-IsOffered s Routes.safe_routes_cleared h = h
reducer-IsOffered s (Routes.set_home_location location) h = h
reducer-IsOffered s Routes.clear_home_location h = h
reducer-IsOffered s (Routes.home_routes_set rs) h = IsOffered-get_elem? rs 0
reducer-IsOffered s (Routes.home_route_select index) h =
    IsOffered-or_else (get_elem? s.home_routes index) s.home_route s.home_routes
      (IsOffered-get_elem? s.home_routes index) h
reducer-IsOffered s Routes.home_routes_cleared h = tt
reducer-IsOffered s (Routes.home_route_set route) h = (0, refl)
reducer-IsOffered s Routes.home_route_cleared h = tt

actions-IsOffered :
    (actions : List UiAction) (s : UiState)
    → IsOffered s.home_route s.home_routes
    → IsOffered (foldl reducer s actions).home_route (foldl reducer s actions).home_routes
actions-IsOffered [] s h = h
actions-IsOffered (a ∷ actions) s h =
    actions-IsOffered actions (reducer s a) (reducer-IsOffered s a h)

-- After any actions from the initial state, the selected home route, if there is one, is one of the alternatives that are shown.
reachable_routes-IsOffered :
    (actions : List UiAction)
    → let s = foldl reducer Routes.initial_state actions in IsOffered s.home_route s.home_routes
reachable_routes-IsOffered actions = actions-IsOffered actions Routes.initial_state tt

module _ {ℓ} {A : Type ℓ} where
  pop-take : (n : ℕ) (xs : List A) → length xs ≡ suc n → pop xs ≡ take n xs
  pop-take n [] h = absurd (ground arith)
  pop-take zero (x ∷ []) h = refl
  pop-take (suc n) (x ∷ []) h = absurd (ground arith)
  pop-take zero (x ∷ y ∷ ys) h = absurd (ground arith)
  pop-take (suc n) (x ∷ y ∷ ys) h = ap (λ t. x ∷ t) (pop-take n (y ∷ ys) (ground arith))

  take_of_length-le : (n : ℕ) (xs : List A) → length xs ≤ n → take n xs ≡ xs
  take_of_length-le zero [] h = refl
  take_of_length-le (suc n) [] h = refl
  take_of_length-le zero (x ∷ xs) h = absurd (ground arith)
  take_of_length-le (suc n) (x ∷ xs) h = ap (λ t. x ∷ t) (take_of_length-le n xs (ground arith))

  take-take : (n : ℕ) (xs : List A) → take n (take n xs) ≡ take n xs
  take-take n xs = take_of_length-le n (take n xs) (length-take-le n xs)

  take-cons-take : (n : ℕ) (x : A) (xs : List A) → take n (x ∷ take n xs) ≡ take n (x ∷ xs)
  take-cons-take zero x xs = refl
  take-cons-take (suc n) x [] = refl
  take-cons-take (suc n) x (y ∷ ys) = ap (λ t. x ∷ t) (take-cons-take n y ys)

  -- A list, last element first, before another.
  abbrev pub before : List A → List A → List A
  before [] ys = ys
  before (x ∷ xs) ys = before xs (x ∷ ys)

  take-before : (n : ℕ) (xs ys : List A) → take n (before xs (take n ys)) ≡ take n (before xs ys)
  take-before n [] ys = take-take n ys
  take-before n (x ∷ xs) ys =
      sym (take-before n xs (x ∷ take n ys))
      ∙ ap (λ t. take n (before xs t)) (take-cons-take n x ys)
      ∙ take-before n xs (x ∷ ys)

log_one :
    (entries : List SafetyLogEntry) (entry : SafetyLogEntry)
    → length entries ≤ 100
    → log_safety_event entries entry ≡ take 100 (entry ∷ entries)
unfolding log_safety_event
log_one entries entry h = elim (Bool-cases (ltb 100 (length (entry ∷ entries)))) [
  | inl full ↦ rw full (pop-take 100 (entry ∷ entries) (ground arith))
  | inr room ↦ rw room (sym (take_of_length-le 100 (entry ∷ entries) (ground arith)))
]

-- From a log of at most a hundred entries, whatever is logged: the log holds the last hundred of all entries, latest first.
logged-take :
    (more entries : List SafetyLogEntry)
    → length entries ≤ 100
    → foldl log_safety_event entries more ≡ take 100 (before more entries)
logged-take [] entries h = sym (take_of_length-le 100 entries h)
logged-take (entry ∷ more) entries h =
    ap (λ s. foldl log_safety_event s more) (log_one entries entry h)
    ∙ logged-take more (take 100 (entry ∷ entries)) (length-take-le 100 (entry ∷ entries))
    ∙ take-before 100 more (entry ∷ entries)
