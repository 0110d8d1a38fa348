-- ===== src/Events/Refinement.antt =====
-- The slice of eventsSlice.ts against a map from ids to events: what each reducer does to the
-- event that is stored under each id.
use sentinelmesh.Common.{
  String, false, List, [], ◌∷◌, ◌++◌, Option, none, some, ◌==◌, eq_iff, ◌≡◌, refl, ap, fun_ext, ◌∙◌,
  arith, if◌then◌else◌, find_by, find_by-set, locate, Dict, put, Option-cases, find_by-key, inl,
  inr,
}
use sentinelmesh.Types.{SafetyEvent}
use sentinelmesh.Events.{
  EventsState, EventsAction, event_received, events_hydrated, events_hydration_failed,
  viewport_events_set, viewport_events_batch_apply, event_resolved, set_connected, upsert_items,
  upsert, upsert_all, hydrate_one, hydrate_all, events_hydrated_step, viewport_set, batch_apply,
  resolve, reducer, merge_event, merge_fields, is_stale,
}

-- The abstract view of the slice.
abbrev pub EventMap : Type 0
EventMap = Dict SafetyEvent

abbrev pub view : EventsState → EventMap
view s = λ j. find_by (λ e. e.id) j s.items

-- What is stored once an event has arrived over what was stored before.
unfoldable pub stored : Option SafetyEvent → SafetyEvent → SafetyEvent
stored none event = event
stored (some current) event = if is_stale current event then current else merge_fields current event

abbrev pub receive : EventMap → SafetyEvent → EventMap
receive m event = put event.id (stored (m event.id) event) m

-- A fetched event, under the fields that the stored one defines.
unfoldable pub fill : Option SafetyEvent → SafetyEvent → SafetyEvent
fill none event = event
fill (some current) event = merge_fields event current

abbrev pub hydrate : EventMap → SafetyEvent → EventMap
hydrate m event = put event.id (stored (m event.id) (fill (m event.id) event)) m

abbrev pub receive_all : EventMap → List SafetyEvent → EventMap
receive_all m [] = m
receive_all m (event ∷ events) = receive_all (receive m event) events

abbrev pub hydrate_each : EventMap → List SafetyEvent → EventMap
hydrate_each m [] = m
hydrate_each m (event ∷ events) = hydrate_each (hydrate m event) events

unfoldable pub switch_off : Option SafetyEvent → Option SafetyEvent
switch_off none = none
switch_off (some event) = some (record event { is_active = false })

abbrev pub deactivate : EventMap → String → EventMap
deactivate m id = λ j. if id == j then switch_off (m j) else m j

-- The reducer on the abstract view.
abbrev pub step : EventMap → EventsAction → EventMap
step m (event_received event) = receive m event
step m (events_hydrated events) = hydrate_each m events
step m (events_hydration_failed message) = m
step m (viewport_events_set events) = receive_all m events
step m (viewport_events_batch_apply added removed updated) = receive_all m (added ++ updated)
step m (event_resolved id) = deactivate m id
step m (set_connected connected) = m

pub id-merge_fields : (c e : SafetyEvent) → (merge_fields c e).id ≡ e.id
unfolding merge_fields
id-merge_fields c e = refl

-- The code's search for an index and its write there, in one equation.
pub find_by-upsert_items :
    (items : List SafetyEvent) (event : SafetyEvent) (j : String)
    → find_by (λ e. e.id) j (upsert_items items event) ≡ (
        if event.id == j
        then some (stored (find_by (λ e. e.id) event.id items) event)
        else find_by (λ e. e.id) j items)
unfolding upsert_items stored merge_event
find_by-upsert_items items event j = elim (locate (λ e. e.id) event.id items) [
  | inl (e, f) ↦ rw (e, f, upsert_items) (ground arith)
  | inr (i, c, e, g, f, k) ↦
      rw (e, f, g, upsert_items)
        (ground (
          arith,
          eq_iff event.id j,
          find_by-set (λ e. e.id) event.id j items i (merge_fields c event) e
              (id-merge_fields c event),
        ))
]

upsert-receive :
    (s : EventsState) (event : SafetyEvent) → view (upsert s event) ≡ receive (view s) event
unfolding upsert
upsert-receive s event = fun_ext (λ j. find_by-upsert_items s.items event j)

upsert_all-receive_all :
    (events : List SafetyEvent) (s : EventsState)
    → view (upsert_all s events) ≡ receive_all (view s) events
unfolding upsert_all
upsert_all-receive_all [] s = refl
upsert_all-receive_all (event ∷ events) s =
    upsert_all-receive_all events (upsert s event)
    ∙ ap (λ m. receive_all m events) (upsert-receive s event)

hydrate_one-hydrate :
    (s : EventsState) (event : SafetyEvent) → view (hydrate_one s event) ≡ hydrate (view s) event
unfolding hydrate_one merge_event fill
hydrate_one-hydrate s event = elim (Option-cases (find_by (λ e. e.id) event.id s.items)) [
  | inl e ↦ rw (e, hydrate_one, fill) (upsert-receive s event ∙ rw e)
  | inr (c, e) ↦
      let same : (merge_fields event c).id ≡ event.id =
        id-merge_fields event c ∙ find_by-key (λ x. x.id) event.id s.items c e in
      rw (e, hydrate_one, fill) (upsert-receive s (merge_fields event c) ∙ rw (same, e))
]

hydrate_all-hydrate_each :
    (events : List SafetyEvent) (s : EventsState)
    → view (hydrate_all s events) ≡ hydrate_each (view s) events
unfolding hydrate_all
hydrate_all-hydrate_each [] s = refl
hydrate_all-hydrate_each (event ∷ events) s =
    hydrate_all-hydrate_each events (hydrate_one s event)
    ∙ ap (λ m. hydrate_each m events) (hydrate_one-hydrate s event)

resolve-deactivate : (s : EventsState) (id : String) → view (resolve s id) ≡ deactivate (view s) id
unfolding resolve switch_off
resolve-deactivate s id = fun_ext λ j. elim (locate (λ e. e.id) id s.items) [
  | inl (e, f) ↦ rw (e, resolve) (ground (arith, eq_iff id j))
  | inr (i, c, e, g, f, k) ↦
      rw (e, g, resolve)
        (ground (
          arith,
          eq_iff id j,
          find_by-set (λ e. e.id) id j s.items i (record c { is_active = false }) e k,
        ))
]

-- For every reducer of the slice and every id, the event stored under the id after the reducer is
-- the one that the map from ids to events says.
pub reducer-step : (s : EventsState) (a : EventsAction) → view (reducer s a) ≡ step (view s) a
unfolding reducer events_hydrated_step viewport_set batch_apply
reducer-step s (event_received event) = upsert-receive s event
reducer-step s (events_hydrated events) = hydrate_all-hydrate_each events s
reducer-step s (events_hydration_failed message) = refl
reducer-step s (viewport_events_set events) = upsert_all-receive_all events s
reducer-step s (viewport_events_batch_apply added removed updated) =
    upsert_all-receive_all (added ++ updated) s
reducer-step s (event_resolved id) = resolve-deactivate s id
reducer-step s (set_connected connected) = refl
