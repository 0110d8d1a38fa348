-- ===== src/Responses/Tests.antt =====
-- Answers that are taken and answers that are not, and an instance of the theorem.
use sentinelmesh.Common.{ℕ, true, false, List, [], ◌∷◌, some, ◌≡◌, refl, ◌⊎◌, inl, inr, to_lower}
use sentinelmesh.Types.{double, confirmed}
use sentinelmesh.Responses.Values.{
  Value, Fields, null, number, text, array, object, boolean, nil, cons, end, field, items, lookup,
}
use sentinelmesh.Responses.Events.{
  ParsedEvent, parse_event, parse_all, fetch_list, fetch_initial_events,
}
use sentinelmesh.Responses.Routes.{
  responded, json, RouteError, map_route_error, RouteResult, finite_number, point_of, every,
  route_of, routes_of, read_body, get_route, is_ok,
}
use sentinelmesh.Responses.Typed.{AreTyped, get_route-typed}

-- The patterns of 1 and of infinity.
abbrev one : Value
one = number (double 4607182418800017408)

abbrev infinite : Value
infinite = number (double 9218868437227405312)

abbrev route : Value → Value
route distance = object (
    field "id" (text "r") (
      field "coordinates" (array (cons (array (cons one (cons one nil))) nil)) (
        field "distance_m" distance (
          field "duration_s" one
            (field "warnings" (array nil) (field "degraded" (boolean false) end))))))

abbrev body : Value → Value
body distance = object (field "routes" (array (cons (route distance) nil)) end)

refused :
    get_route (responded 200 (json (body infinite)))
    ≡ inl (map_route_error "Route provider returned an invalid response")
unfolding get_route read_body routes_of every route_of point_of finite_number lookup items
refused = refl

taken : (r : RouteResult) × (get_route (responded 200 (json (body one))) ≡ inr (r ∷ []))
unfolding get_route read_body routes_of every route_of point_of finite_number lookup items
taken = (_, refl)

-- An event without a state is active; one without a title is left out.
abbrev event : Fields → Value
event rest = object (
    field "id" (text "e") (
      field "event_type" (text "FLOOD") (
        field "severity" (text "HIGH")
          (field "lat" one (field "lng" one (field "started_at" (text "2026") rest))))))

abbrev fields : Fields
fields = field "title" (text "t") (field "trust_state" (text "CONFIRMED") end)

abbrev events : Value
events =
    object (field "events" (array (cons (event end) (cons (event fields) (cons null nil)))) end)

parsed :
    (e : ParsedEvent) × (fetch_initial_events (inr events) ≡ inr (e ∷ []))
    × (e.is_active ≡ true)
    × (e.trust_state ≡ confirmed)
unfolding fetch_initial_events fetch_list parse_all parse_event lookup items to_lower
parsed = (_, refl, refl, refl)

get_route-typed_example :
    ((e : RouteError) × (get_route (responded 200 (json (body one))) ≡ inl e))
    ⊎ ((status : ℕ) × (v : Value) × (routes : List RouteResult) × (responded 200 (json (body one))
          ≡ responded status (json v))
        × (is_ok status ≡ true)
        × (routes_of v ≡ some routes)
        × (get_route (responded 200 (json (body one))) ≡ inr routes)
        × AreTyped routes)
get_route-typed_example = get_route-typed (responded 200 (json (body one)))
