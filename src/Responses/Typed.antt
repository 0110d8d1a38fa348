-- ===== src/Responses/Typed.antt =====
-- What is taken from an answer has the fields and the types that the code goes on with.
use sentinelmesh.Common.{
  ℕ, true, false, not, List, [], ◌∷◌, Option, none, some, ◌≡◌, refl, subst, ◌⊎◌, inl, inr, ◌==◌,
  arith, and_then-some, only_if-some, Option-cases, Bool-cases,
}
use sentinelmesh.Types.{Double}
use sentinelmesh.Responses.Values.{
  Value, lookup, as_text, as_number, as_boolean, as_array, is_finite_number,
}
use sentinelmesh.Responses.Routes.{
  Body, cut_off, unreadable, json, Answer, aborted, unreachable, responded, RouteError, abort,
  map_route_error, Point, RouteResult, finite_number, pair_of, point_of, every, object_of, route_of,
  routes_of, is_ok, read_body, get_route,
}

abbrev pub AreFinite : List Point → Type 0
AreFinite [] = Unit
AreFinite (p ∷ ps) =
    (is_finite_number p.lng ≡ true) × (is_finite_number p.lat ≡ true) × AreFinite ps

-- A route that the rest of the application can use.
abbrev pub IsTyped : RouteResult → Type 0
IsTyped r =
    ((r.id == "") ≡ false)
    × AreFinite r.coordinates
    × (is_finite_number r.distance_m ≡ true)
    × (is_finite_number r.duration_s ≡ true)
    × (r.distance ≡ r.distance_m)
    × (r.duration ≡ r.duration_s)

abbrev pub AreTyped : List RouteResult → Type 0
AreTyped [] = Unit
AreTyped (r ∷ rs) = IsTyped r × AreTyped rs

finite_number-some :
    (v : Option Value) (d : Double) → finite_number v ≡ some d → is_finite_number d ≡ true
unfolding finite_number
finite_number-some v d h =
    let (x, e, a) = and_then-some (as_number v) _ h in
    let (finite, b) = only_if-some (is_finite_number x) _ a in
    subst (λ o. elim o [ none ↦ Unit | some y ↦ is_finite_number y ≡ true ]) b finite

pair_of-finite :
    (vs : List Value) (p : Point)
    → pair_of vs ≡ some p
    → (is_finite_number p.lng ≡ true) × (is_finite_number p.lat ≡ true)
pair_of-finite [] p h = absurd (ground (arith, h))
pair_of-finite (a ∷ []) p h = absurd (ground (arith, h))
pair_of-finite (a ∷ b ∷ []) p h =
    let (lng, e, c) = and_then-some (finite_number (some a)) _ h in
    let (lat, f, d) = and_then-some (finite_number (some b)) _ c in
    subst
      (λ o. elim o [
        | none ↦ Unit
        | some q ↦ (is_finite_number q.lng ≡ true) × (is_finite_number q.lat ≡ true)
      ])
      d (finite_number-some (some a) lng e, finite_number-some (some b) lat f)
pair_of-finite (a ∷ b ∷ c ∷ vs) p h = absurd (ground (arith, h))

points-finite : (vs : List Value) (ps : List Point) → every point_of vs ≡ some ps → AreFinite ps
unfolding every point_of
points-finite [] ps h = subst (λ o. elim o [ none ↦ Unit | some qs ↦ AreFinite qs ]) h tt
points-finite (v ∷ vs) ps h =
    let (p, e, a) = and_then-some (point_of v) _ h in
    let (qs, f, b) = and_then-some (every point_of vs) _ a in
    let (xs, g, c) = and_then-some (as_array (some v)) _ e in
    let (lng, lat) = pair_of-finite xs p c in
    subst (λ o. elim o [ none ↦ Unit | some rs ↦ AreFinite rs ]) b (lng, lat, points-finite vs qs f)

route_of-IsTyped : (v : Value) (r : RouteResult) → route_of v ≡ some r → IsTyped r
unfolding route_of
route_of-IsTyped v r h =
    let (fs, e, a) = and_then-some (object_of v) _ h in
    let (id, f, b) = and_then-some (as_text (lookup "id" fs)) _ a in
    let (named, c) = only_if-some (not (id == "")) _ b in
    let (points, g, d) = and_then-some (as_array (lookup "coordinates" fs)) _ c in
    let (coordinates, i, j) = and_then-some (every point_of points) _ d in
    let (distance, k, l) = and_then-some (finite_number (lookup "distance_m" fs)) _ j in
    let (duration, m, n) = and_then-some (finite_number (lookup "duration_s" fs)) _ l in
    let (warnings, o, p) = and_then-some (as_array (lookup "warnings" fs)) _ n in
    let (degraded, q, s) = and_then-some (as_boolean (lookup "degraded" fs)) _ p in
    subst (λ x. elim x [ none ↦ Unit | some y ↦ IsTyped y ]) s
      (
        ground (arith, named),
        points-finite points coordinates i,
        finite_number-some (lookup "distance_m" fs) distance k,
        finite_number-some (lookup "duration_s" fs) duration m,
        refl,
        refl,
      )

routes-AreTyped :
    (vs : List Value) (rs : List RouteResult) → every route_of vs ≡ some rs → AreTyped rs
unfolding every
routes-AreTyped [] rs h = subst (λ o. elim o [ none ↦ Unit | some qs ↦ AreTyped qs ]) h tt
routes-AreTyped (v ∷ vs) rs h =
    let (r, e, a) = and_then-some (route_of v) _ h in
    let (qs, f, b) = and_then-some (every route_of vs) _ a in
    subst (λ o. elim o [ none ↦ Unit | some ss ↦ AreTyped ss ]) b
      (route_of-IsTyped v r e, routes-AreTyped vs qs f)

typed_routes : (v : Value) (rs : List RouteResult) → routes_of v ≡ some rs → AreTyped rs
unfolding routes_of
typed_routes v rs h =
    let (fs, e, a) = and_then-some (object_of v) _ h in
    let (vs, f, b) = and_then-some (as_array (lookup "routes" fs)) _ a in routes-AreTyped vs rs b

-- Routes are returned only for an answer with a status from 200 to 299 whose body is JSON with an array of routes, and then it is all of them or none: every route has an id that is not empty, its points are pairs of finite numbers, its distance and its duration are finite, and the aliases agree with them. In every other case there is an error.
pub get_route-typed :
    (answer : Answer)
    → ((e : RouteError) × (get_route answer ≡ inl e))
      ⊎ ((status : ℕ) × (v : Value) × (routes : List RouteResult) × (answer
            ≡ responded status (json v))
          × (is_ok status ≡ true)
          × (routes_of v ≡ some routes)
          × (get_route answer ≡ inr routes)
          × AreTyped routes)
unfolding get_route read_body
get_route-typed aborted = inl (abort, refl)
get_route-typed unreachable = inl (map_route_error "Route provider is unavailable", refl)
get_route-typed (responded status body) = elim (Bool-cases (is_ok status)) [
  | inr bad ↦ rw bad (inl (_, refl))
  | inl ok ↦ rw ok (by_body status body ok)
]
  where
    by_body :
        (status : ℕ) (body : Body)
        → is_ok status ≡ true
        → ((e : RouteError) × (read_body body ≡ inl e))
          ⊎ ((n : ℕ) × (v : Value) × (routes : List RouteResult) × (responded status body
                ≡ responded n (json v))
              × (is_ok n ≡ true)
              × (routes_of v ≡ some routes)
              × (read_body body ≡ inr routes)
              × AreTyped routes)
    by_body status cut_off ok = inl (abort, refl)
    by_body status unreadable ok =
        inl (map_route_error "Route provider returned an invalid response", refl)
    by_body status (json v) ok = elim (Option-cases (routes_of v)) [
      | inl e ↦
          inl
            (map_route_error "Route provider returned an invalid response", rw (e, read_body) refl)
      | inr (routes, e) ↦
          inr (status, v, routes, refl, ok, e, rw (e, read_body) refl, typed_routes v routes e)
    ]
