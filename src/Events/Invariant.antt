-- ===== src/Events/Invariant.antt =====
-- What every reachable state of eventsSlice.ts satisfies.
use sentinelmesh.Common.{
  String, false, List, [], ◌∷◌, ◌++◌, foldl, some, locate, map-key-set, includes_of_index_none,
  Distinct, Bool-cases, inl, inr, find_by, Option-cases,
}
use sentinelmesh.Common.Sets
use sentinelmesh.Types.{SafetyEvent}
use sentinelmesh.Events.{
  EventsState, EventsAction, event_received, events_hydrated, events_hydration_failed,
  viewport_events_set, viewport_events_batch_apply, event_resolved, set_connected, upsert_items,
  upsert, upsert_all, hydrate_one, hydrate_all, events_hydrated_step, viewport_set, batch_apply,
  resolve, reducer, merge_event, merge_fields, is_stale, ids_of, initial_state,
}
use sentinelmesh.Events.Refinement.{id-merge_fields}

-- No two stored events have one id, and no viewport id stands twice.
pub record IsValid (s : EventsState) : Type 0 where
  pub distinct_items : Distinct (ids_of s.items)
  pub distinct_viewport : Distinct s.viewport_ids

ids-upsert_items :
    (items : List SafetyEvent) (event : SafetyEvent)
    → Distinct (ids_of items)
    → Distinct (ids_of (upsert_items items event))
unfolding upsert_items merge_event
ids-upsert_items items event h = elim (locate (λ e. e.id) event.id items) [
  | inl (e, f) ↦ rw (e, upsert_items) (includes_of_index_none (λ e. e.id) event.id items e, h)
  | inr (i, c, e, g, f, k) ↦ elim (Bool-cases (is_stale c event)) [
    | inl old ↦ rw (e, g, old, upsert_items) h
    | inr new ↦
        rw
          (
            e,
            g,
            new,
            upsert_items,
            map-key-set (λ e. e.id) event.id items i (merge_fields c event) e
                (id-merge_fields c event),
          )
          h
  ]
]

upsert-IsValid : (s : EventsState) (event : SafetyEvent) → IsValid s → IsValid (upsert s event)
unfolding upsert
upsert-IsValid s event v = record {
  distinct_items = ids-upsert_items s.items event v.distinct_items;
  distinct_viewport = v.distinct_viewport;
}

upsert_all-IsValid :
    (events : List SafetyEvent) (s : EventsState) → IsValid s → IsValid (upsert_all s events)
unfolding upsert_all
upsert_all-IsValid [] s v = v
upsert_all-IsValid (event ∷ events) s v =
    upsert_all-IsValid events (upsert s event) (upsert-IsValid s event v)

hydrate_one-IsValid :
    (s : EventsState) (event : SafetyEvent) → IsValid s → IsValid (hydrate_one s event)
unfolding hydrate_one
hydrate_one-IsValid s event v = elim (Option-cases (find_by (λ e. e.id) event.id s.items)) [
  | inl e ↦ rw (e, hydrate_one) (upsert-IsValid s event v)
  | inr (c, e) ↦ rw (e, hydrate_one) (upsert-IsValid s (merge_event (some event) c) v)
]

hydrate_all-IsValid :
    (events : List SafetyEvent) (s : EventsState) → IsValid s → IsValid (hydrate_all s events)
unfolding hydrate_all
hydrate_all-IsValid [] s v = v
hydrate_all-IsValid (event ∷ events) s v =
    hydrate_all-IsValid events (hydrate_one s event) (hydrate_one-IsValid s event v)

resolve-IsValid : (s : EventsState) (id : String) → IsValid s → IsValid (resolve s id)
unfolding resolve
resolve-IsValid s id v = elim (locate (λ e. e.id) id s.items) [
  | inl (e, f) ↦ rw (e, resolve) v
  | inr (i, c, e, g, f, k) ↦
      rw (e, g, resolve)
        (record {
          distinct_items =
              rw (map-key-set (λ e. e.id) id s.items i (record c { is_active = false }) e k)
                v.distinct_items;
          distinct_viewport = v.distinct_viewport;
        })
]

-- Every reducer keeps the ids of the stored events and of the viewport free of repetitions.
pub reducer-IsValid : (s : EventsState) (a : EventsAction) → IsValid s → IsValid (reducer s a)
unfolding reducer events_hydrated_step viewport_set batch_apply Sets.of_list
reducer-IsValid s (event_received event) v = upsert-IsValid s event v
reducer-IsValid s (events_hydrated events) v =
    let w = hydrate_all-IsValid events s v in
    record { distinct_items = w.distinct_items; distinct_viewport = w.distinct_viewport }
reducer-IsValid s (events_hydration_failed message) v = record {
  distinct_items = v.distinct_items;
  distinct_viewport = v.distinct_viewport;
}
reducer-IsValid s (viewport_events_set events) v = record {
  distinct_items = (upsert_all-IsValid events s v).distinct_items;
  distinct_viewport = Sets.Distinct-foldl-add (ids_of events) [] tt;
}
reducer-IsValid s (viewport_events_batch_apply added removed updated) v = record {
  distinct_items = (upsert_all-IsValid (added ++ updated) s v).distinct_items;
  distinct_viewport = Sets.Distinct-foldl-add (ids_of updated) _ (
      Sets.Distinct-foldl-add (ids_of added) _ (
        Sets.Distinct-foldl-remove removed _
          (Sets.Distinct-foldl-add (upsert_all s (added ++ updated)).viewport_ids [] tt)));
}
reducer-IsValid s (event_resolved id) v = resolve-IsValid s id v
reducer-IsValid s (set_connected connected) v = record {
  distinct_items = v.distinct_items;
  distinct_viewport = v.distinct_viewport;
}

run-IsValid :
    (actions : List EventsAction) (s : EventsState) → IsValid s → IsValid (foldl reducer s actions)
run-IsValid [] s v = v
run-IsValid (a ∷ actions) s v = run-IsValid actions (reducer s a) (reducer-IsValid s a v)

-- Whatever actions are dispatched to the initial state, in any order, no two stored events have
-- one id and no viewport id stands twice.
pub reachable_events-IsValid :
    (actions : List EventsAction) → IsValid (foldl reducer initial_state actions)
reachable_events-IsValid actions =
    run-IsValid actions initial_state (record { distinct_items = tt; distinct_viewport = tt })
