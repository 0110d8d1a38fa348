-- ===== src/Events.antt =====
-- The Redux slice of safety events (apps/pwa/src/store/eventsSlice.ts): the events that the map
-- and the feed show, keyed by id, with the ids of the current viewport.
mod Merge
mod Refinement
mod Invariant
mod Viewport
mod Freshness
mod Tests
use sentinelmesh.Common.{
  ℕ, String, Bool, true, false, not, ◌&&◌, List, [], ◌∷◌, ◌++◌, map, Option, none, some, ◌==◌,
  str_lt, if◌then◌else◌, get_elem?, set, filter, includes, index_by, find_by, length, foldl,
}
use sentinelmesh.Common.Sets
use sentinelmesh.Types.{Field, undefined, null, value, SafetyEvent}

pub record EventsState : Type 0 where
  pub items : List SafetyEvent
  pub viewport_ids : List String
  pub connected : Bool
  pub initialized : Bool
  pub error : Option String

abbrev pub initial_state : EventsState
initial_state = record {
  items = [];
  viewport_ids = [];
  connected = false;
  initialized = false;
  error = none;
}

-- `if (value !== undefined) merged[key] = value`, for a field that may be null and one that may not.
abbrev pub over_field {ℓ} : {A : Type ℓ} → Field A → Field A → Field A
over_field current undefined = current
over_field current null = null
over_field current (value v) = value v

abbrev pub over {ℓ} : {A : Type ℓ} → Option A → Option A → Option A
over current none = current
over current (some v) = some v

-- The loop of `mergeEvent` over the fields of the incoming event.
unfoldable pub merge_fields : SafetyEvent → SafetyEvent → SafetyEvent
merge_fields current incoming = record {
  id = incoming.id;
  event_type = incoming.event_type;
  severity = incoming.severity;
  title = incoming.title;
  summary = over_field current.summary incoming.summary;
  lat = incoming.lat;
  lng = incoming.lng;
  place_name = over_field current.place_name incoming.place_name;
  county = over_field current.county incoming.county;
  is_active = incoming.is_active;
  state = incoming.state;
  started_at = incoming.started_at;
  created_at = incoming.created_at;
  updated_at = over current.updated_at incoming.updated_at;
  radius_meters = over_field current.radius_meters incoming.radius_meters;
  confidence = over_field current.confidence incoming.confidence;
  source_count = over_field current.source_count incoming.source_count;
  source_breakdown = over_field current.source_breakdown incoming.source_breakdown;
  nostr_event_id = over_field current.nostr_event_id incoming.nostr_event_id;
  trust_state = over current.trust_state incoming.trust_state;
  origin_class = over current.origin_class incoming.origin_class;
}

unfoldable pub merge_event : Option SafetyEvent → SafetyEvent → SafetyEvent
merge_event none incoming = incoming
merge_event (some current) incoming = merge_fields current incoming

-- `a && b && b < a`: both are texts that are not empty, and the incoming one is the smaller.
pub is_older : Option String → Option String → Bool
is_older (some a) (some b) = not (a == "") && (not (b == "") && str_lt b a)
is_older none _ = false
is_older (some a) none = false

abbrev pub is_stale : SafetyEvent → SafetyEvent → Bool
is_stale current event = is_older current.updated_at event.updated_at

-- `upsert` on the items; the slice changes nothing else.
unfoldable pub upsert_items : List SafetyEvent → SafetyEvent → List SafetyEvent
upsert_items items event = elim (index_by (λ e. e.id) event.id items) [
  | none ↦ event ∷ items
  | some idx ↦ elim (get_elem? items idx) [
    | none ↦ items
    | some current ↦
        if is_stale current event then items else set items idx (merge_event (some current) event)
  ]
]

unfoldable pub upsert : EventsState → SafetyEvent → EventsState
upsert s event = record s { items = upsert_items s.items event }

-- The loop `for (const event of events) upsert(state, event)`.
pub upsert_all : EventsState → List SafetyEvent → EventsState
upsert_all s [] = s
upsert_all s (event ∷ events) = upsert_all (upsert s event) events

-- One round of the loop of `eventsHydrated`.
unfoldable pub hydrate_one : EventsState → SafetyEvent → EventsState
hydrate_one s event = elim (find_by (λ e. e.id) event.id s.items) [
  | none ↦ upsert s event
  | some current ↦ upsert s (merge_event (some event) current)
]

pub hydrate_all : EventsState → List SafetyEvent → EventsState
hydrate_all s [] = s
hydrate_all s (event ∷ events) = hydrate_all (hydrate_one s event) events

abbrev pub ids_of : List SafetyEvent → List String
ids_of = map (λ e. e.id)

pub data EventsAction : Type 0 where
  event_received : SafetyEvent → EventsAction
  events_hydrated : List SafetyEvent → EventsAction
  events_hydration_failed : String → EventsAction
  viewport_events_set : List SafetyEvent → EventsAction
  -- the added events, the removed ids, the updated events
  viewport_events_batch_apply : List SafetyEvent → List String → List SafetyEvent → EventsAction
  event_resolved : String → EventsAction
  set_connected : Bool → EventsAction

unfoldable pub events_hydrated_step : EventsState → List SafetyEvent → EventsState
events_hydrated_step s events =
    let s' = hydrate_all s events in record s' { initialized = true; error = none }

unfoldable pub viewport_set : EventsState → List SafetyEvent → EventsState
viewport_set s events =
    let s' = upsert_all s events in record s' { viewport_ids = Sets.of_list (ids_of events) }

unfoldable pub batch_apply :
    EventsState → List SafetyEvent → List String → List SafetyEvent → EventsState
batch_apply s added removed updated =
    let s' = upsert_all s (added ++ updated) in
    let ids = foldl Sets.remove (Sets.of_list s'.viewport_ids) removed in
    record s' { viewport_ids = foldl Sets.add (foldl Sets.add ids (ids_of added)) (ids_of updated) }

unfoldable pub resolve : EventsState → String → EventsState
resolve s id = elim (index_by (λ e. e.id) id s.items) [
  | none ↦ s
  | some idx ↦ elim (get_elem? s.items idx) [
    | none ↦ s
    | some e ↦ record s { items = set s.items idx (record e { is_active = false }) }
  ]
]

unfoldable pub reducer : EventsState → EventsAction → EventsState
reducer s (event_received event) = upsert s event
reducer s (events_hydrated events) = events_hydrated_step s events
reducer s (events_hydration_failed message) = record s { initialized = true; error = some message }
reducer s (viewport_events_set events) = viewport_set s events
reducer s (viewport_events_batch_apply added removed updated) = batch_apply s added removed updated
reducer s (event_resolved id) = resolve s id
reducer s (set_connected connected) = record s { connected = connected }

-- The selectors.
unfoldable pub select_viewport_event_items : EventsState → List SafetyEvent
select_viewport_event_items s =
    let ids = Sets.of_list s.viewport_ids in filter (λ event. includes event.id ids) s.items

unfoldable pub select_active_viewport_events : EventsState → List SafetyEvent
select_active_viewport_events s = filter (λ event. event.is_active) (select_viewport_event_items s)

unfoldable pub select_active_alerts : EventsState → ℕ
select_active_alerts s = length (filter (λ e. e.is_active) s.items)
