-- ===== src/Events/Tests.antt =====
-- Runs of the slice of eventsSlice.ts, and its theorems at concrete inputs.
use sentinelmesh.Common.{
  true, List, [], ◌∷◌, none, some, ◌≡◌, refl, arith, map, foldl, find_by, str_lt, eq_iff,
}
use sentinelmesh.Common.Sets
use sentinelmesh.Types.{
  double, value, null, undefined, SafetyEvent, EventType, Severity, EventState, TrustState,
}
use sentinelmesh.Events.{
  EventsState, EventsAction, event_received, viewport_events_set, initial_state, reducer, upsert,
  upsert_items, viewport_set, upsert_all, merge_event, merge_fields, is_older,
}
use sentinelmesh.Events.Refinement.{view, step, reducer-step}
use sentinelmesh.Events.Invariant.{IsValid, reachable_events-IsValid}
use sentinelmesh.Events.Freshness.{Follows, reducer-Keeps}

abbrev flood : SafetyEvent
flood = record {
  id = "e1";
  event_type = EventType.flood;
  severity = Severity.high;
  title = "Flood";
  summary = value "Bridge closed";
  lat = double 1;
  lng = double 2;
  place_name = undefined;
  county = null;
  is_active = true;
  state = EventState.active;
  started_at = "2026-01-01T00:00:00Z";
  created_at = "2026-01-01T00:00:00Z";
  updated_at = some "2026-01-02T00:00:00Z";
  radius_meters = undefined;
  confidence = undefined;
  source_count = undefined;
  source_breakdown = undefined;
  nostr_event_id = undefined;
  trust_state = some TrustState.heuristic;
  origin_class = none;
}

-- A projection that omits the summary, later and earlier than the stored version.
abbrev later : SafetyEvent
later = record flood {
  title = "Flood, rising";
  summary = undefined;
  updated_at = some "2026-01-03T00:00:00Z";
}

abbrev earlier : SafetyEvent
earlier = record flood { title = "Old"; updated_at = some "2026-01-01T12:00:00Z" }

abbrev other : SafetyEvent
other = record flood { id = "e2"; title = "Fire" }

abbrev actions : List EventsAction
actions =
    viewport_events_set (flood ∷ other ∷ []) ∷ event_received later ∷ event_received earlier ∷ []

abbrev one : EventsState
one = record initial_state { items = flood ∷ []; viewport_ids = "e1" ∷ [] }

program : Unit {0}
unfolding reducer upsert upsert_items viewport_set upsert_all merge_event merge_fields is_older
    str_lt Sets.of_list
program = tt

merged_titles :
    map (λ e. e.title) (foldl reducer initial_state actions).items ≡ "Fire" ∷ "Flood, rising" ∷ []
unfolding program
merged_titles = refl

one-IsValid : IsValid one
one-IsValid = record { distinct_items = (refl, tt); distinct_viewport = (refl, tt) }

reducer-step_example :
    view (reducer one (event_received later)) ≡ step (view one) (event_received later)
reducer-step_example = reducer-step one (event_received later)

reachable_events-IsValid_example : IsValid (foldl reducer initial_state actions)
reachable_events-IsValid_example = reachable_events-IsValid actions

reducer-Keeps_example :
    (c' : SafetyEvent) × (find_by (λ e. e.id) "e1" (reducer one (event_received later)).items
      ≡ some c')
    × Follows flood.updated_at c'.updated_at
reducer-Keeps_example =
    reducer-Keeps one (event_received later) "e1" flood
      (ground (arith, eq_iff "2026-01-03T00:00:00Z" "")) refl
