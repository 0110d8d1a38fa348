-- ===== src/View/Routes.antt =====
-- Overlays, the home location and the routes (apps/pwa/src/store/uiSlice.ts).
use sentinelmesh.Common.{ℕ, String, List, [], ◌∷◌, Option, none, some, get_elem?, or_else}
use sentinelmesh.Types.{Double}

pub data TravelMode : Type 0 where
  walking driving cycling : TravelMode

pub data IntentType : Type 0 where
  overlay modal : IntentType

pub data IntentName : Type 0 where
  routes acoustic home_route : IntentName

-- `intent_type` is the source's `type`.
pub record UiIntent : Type 0 where
  pub intent_type : IntentType
  pub name : Option IntentName

pub record HomeLocation : Type 0 where
  pub lat : Double
  pub lng : Double
  pub label : String

pub record HomeRoute : Type 0 where
  pub id : String
  pub coordinates : List (Double × Double)
  pub distance_km : Double
  pub duration_min : Double
  pub warnings : List String
  pub label : String
  pub mode : TravelMode
  pub alert_intersections : ℕ

pub record SafeRoute : Type 0 where
  pub id : String
  pub coordinates : List (Double × Double)

pub record UiState : Type 0 where
  pub ui_intent : UiIntent
  pub safe_routes : List SafeRoute
  pub home_location : Option HomeLocation
  pub home_route : Option HomeRoute
  pub home_routes : List HomeRoute

abbrev pub initial_state : UiState
initial_state = record {
  ui_intent = record { intent_type = overlay; name = none };
  safe_routes = [];
  home_location = none;
  home_route = none;
  home_routes = [];
}

pub data UiAction : Type 0 where
  set_overlay_intent : IntentName → UiAction
  consume_overlay_intent : UiAction
  safe_routes_set : List SafeRoute → UiAction
  safe_routes_cleared : UiAction
  set_home_location : HomeLocation → UiAction
  clear_home_location : UiAction
  home_routes_set : List HomeRoute → UiAction
  home_route_select : ℕ → UiAction
  home_routes_cleared : UiAction
  home_route_set : HomeRoute → UiAction
  home_route_cleared : UiAction

unfoldable pub reducer : UiState → UiAction → UiState
reducer s (set_overlay_intent name) = record s {
  ui_intent = record { intent_type = overlay; name = some name };
}
reducer s consume_overlay_intent = record s {
  ui_intent = record { intent_type = overlay; name = none };
}
reducer s (safe_routes_set rs) = record s { safe_routes = rs }
reducer s safe_routes_cleared = record s { safe_routes = [] }
reducer s (set_home_location location) = record s { home_location = some location }
reducer s clear_home_location = record s { home_location = none }
reducer s (home_routes_set rs) = record s { home_routes = rs; home_route = get_elem? rs 0 }
reducer s (home_route_select index) = record s {
  home_route = or_else (get_elem? s.home_routes index) s.home_route;
}
reducer s home_routes_cleared = record s { home_routes = []; home_route = none }
reducer s (home_route_set route) = record s { home_route = some route; home_routes = route ∷ [] }
reducer s home_route_cleared = record s { home_route = none; home_routes = [] }
