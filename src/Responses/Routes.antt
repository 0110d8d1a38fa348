-- ===== src/Responses/Routes.antt =====
-- Routes from the gateway (apps/pwa/src/services/mapApiService.ts: getRoute). The answer of `fetch` is
-- an argument: a request that fails or is aborted, or a status with a body, which is JSON or not.
use Prim.Native.String.{◌++◌}
use sentinelmesh.Common.{
  ℕ, String, Bool, ◌&&◌, not, List, [], ◌∷◌, Option, none, some, ◌==◌, leb, if◌then◌else◌, and_then,
  only_if, decimal, ◌⊎◌, inl, inr,
}
use sentinelmesh.Types.{Double}
use sentinelmesh.Responses.Values.{
  Value, Fields, object, lookup, as_text, as_number, as_boolean, as_array, is_finite_number,
}

pub data Body : Type 0 where
  cut_off unreadable : Body
  json : Value → Body

pub data Answer : Type 0 where
  aborted unreachable : Answer
  responded : ℕ → Body → Answer

-- The abortion is thrown on; any other error is a MapRouteError with a message.
pub data RouteError : Type 0 where
  abort : RouteError
  map_route_error : String → RouteError

pub record Point : Type 0 where
  pub lng : Double
  pub lat : Double

-- `distance` and `duration` are aliases.
pub record RouteResult : Type 0 where
  pub id : String
  pub coordinates : List Point
  pub distance_m : Double
  pub duration_s : Double
  pub warnings : List Value
  pub degraded : Bool
  pub distance : Double
  pub duration : Double

unfoldable pub finite_number : Option Value → Option Double
finite_number v = and_then (as_number v) (λ d. only_if (is_finite_number d) (some d))

-- An array of two finite numbers.
abbrev pub pair_of : List Value → Option Point
pair_of (a ∷ b ∷ []) =
    and_then (finite_number (some a))
      (λ lng. and_then (finite_number (some b)) (λ lat. some (record { lng = lng; lat = lat })))
pair_of _ = none

unfoldable pub point_of : Value → Option Point
point_of v = and_then (as_array (some v)) pair_of

-- All of them, or nothing.
unfoldable pub every {ℓ} : {A : Type ℓ} → (Value → Option A) → List Value → Option (List A)
every parse [] = some []
every parse (v ∷ vs) =
    let rest = every parse vs in and_then (parse v) (λ a. and_then rest (λ as_. some (a ∷ as_)))

-- The fields of an object; anything else has none of them.
abbrev pub object_of : Value → Option Fields
object_of (object fs) = some fs
object_of _ = none

unfoldable pub route_of : Value → Option RouteResult
route_of v = and_then (object_of v) (λ fs. and_then (as_text (lookup "id" fs)) (λ id.
    only_if (not (id == "")) (
      and_then (as_array (lookup "coordinates" fs)) (λ points.
        and_then (every point_of points) (λ coordinates.
          and_then (finite_number (lookup "distance_m" fs)) (λ distance_m.
            and_then (finite_number (lookup "duration_s" fs)) (λ duration_s.
              and_then (as_array (lookup "warnings" fs)) (λ warnings.
                and_then (as_boolean (lookup "degraded" fs)) (λ degraded. some (record {
                  id = id;
                  coordinates = coordinates;
                  distance_m = distance_m;
                  duration_s = duration_s;
                  warnings = warnings;
                  degraded = degraded;
                  distance = distance_m;
                  duration = duration_s;
                }))))))))))

unfoldable pub routes_of : Value → Option (List RouteResult)
routes_of v =
    and_then (object_of v)
      (λ fs. and_then (as_array (lookup "routes" fs)) (λ routes. every route_of routes))

abbrev pub is_ok : ℕ → Bool
is_ok status = leb 200 status && leb status 299

unfoldable pub read_body : Body → RouteError ⊎ List RouteResult
read_body cut_off = inl abort
read_body unreadable = inl (map_route_error "Route provider returned an invalid response")
read_body (json v) = elim (routes_of v) [
  | none ↦ inl (map_route_error "Route provider returned an invalid response")
  | some routes ↦ inr routes
]

unfoldable pub get_route : Answer → RouteError ⊎ List RouteResult
get_route aborted = inl abort
get_route unreachable = inl (map_route_error "Route provider is unavailable")
get_route (responded status body) =
    if is_ok status
    then read_body body
    else inl (map_route_error ("Route request failed (" ++ (decimal status ++ ")")))
