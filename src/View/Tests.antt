-- ===== src/View/Tests.antt =====
-- Runs of the view slices, and the theorems at concrete actions.
use sentinelmesh.Common.{ℕ, String, true, false, List, [], ◌∷◌, none, some, ◌≡◌, refl, foldl}
use sentinelmesh.Types.{double}
use sentinelmesh.View.Routes
use sentinelmesh.View.Routes.{
  UiAction, HomeRoute, reducer, walking, home_route_select, home_routes_set,
}
use sentinelmesh.View.Acoustic
use sentinelmesh.View.Fetches.{
  stats_reducer, buckets_reducer, no_stats, no_buckets, pending, rejected, fulfilled,
}
use sentinelmesh.View.Log.{SafetyLogEntry, log_safety_event, acoustic}

abbrev route : String → HomeRoute
route id = record {
  id = id;
  coordinates = [];
  distance_km = double 0;
  duration_min = double 0;
  warnings = [];
  label = id;
  mode = walking;
  alert_intersections = 0;
}

abbrev actions : List UiAction
actions =
    home_routes_set (route "a" ∷ route "b" ∷ []) ∷ home_route_select 1 ∷ home_route_select 7 ∷ []

selected : (foldl reducer Routes.initial_state actions).home_route ≡ some (route "b")
unfolding reducer
selected = refl

abbrev entry : ℕ → SafetyLogEntry
entry n = record { entry_type = acoustic; label = "Gunshot"; timestamp = n }

logged : log_safety_event (entry 1 ∷ []) (entry 2) ≡ entry 2 ∷ entry 1 ∷ []
unfolding log_safety_event
logged = refl

started : (Acoustic.reducer Acoustic.initial_state Acoustic.detection_started).is_running ≡ true
unfolding Acoustic.reducer
started = refl

failed : (stats_reducer (stats_reducer no_stats pending) (rejected none)).error ≡ some "Error"
unfolding stats_reducer
failed = refl

answered : (buckets_reducer (buckets_reducer no_buckets pending) (fulfilled [])).loading ≡ false
unfolding buckets_reducer
answered = refl
