-- ===== src/Events/Viewport.antt =====
-- The viewport of eventsSlice.ts: which ids it holds, and which events the selectors show.
use sentinelmesh.Common.{
  String, Bool, ◌||◌, ◌&&◌, not, List, [], ◌∷◌, Option, none, some, ◌≡◌, refl, arith, ap, eq_refl,
  ◌∙◌, Bool-cases, Option-cases, inl, inr, includes, Distinct, find_by, filter, keep_if,
  find_by-filter, find_by-key, Distinct-filter, if◌then◌else◌,
}
use sentinelmesh.Common.Sets
use sentinelmesh.Types.{SafetyEvent}
use sentinelmesh.Events.{
  EventsState, event_resolved, viewport_events_batch_apply, reducer, ids_of, batch_apply,
  select_viewport_event_items, select_active_viewport_events, upsert, upsert_all,
}
use sentinelmesh.Events.Invariant.{IsValid, reducer-IsValid}
use sentinelmesh.Events.Refinement.{EventMap, view, switch_off, reducer-step}

viewport-upsert_all :
    (events : List SafetyEvent) (s : EventsState)
    → (upsert_all s events).viewport_ids ≡ s.viewport_ids
unfolding upsert upsert_all
viewport-upsert_all [] s = refl
viewport-upsert_all (event ∷ events) s = viewport-upsert_all events (upsert s event)

-- After a batch, the viewport holds the ids of the added and of the updated events, and of what
-- it held before, those that are not among the removed ids; nothing else.
includes-batch_apply :
    (s : EventsState) (added : List SafetyEvent) (removed : List String)
    (updated : List SafetyEvent) (id : String)
    → includes id (reducer s (viewport_events_batch_apply added removed updated)).viewport_ids ≡ (
        includes id (ids_of updated)
        || (includes id (ids_of added)
            || (not (includes id removed) && includes id s.viewport_ids)))
unfolding reducer batch_apply Sets.of_list
includes-batch_apply s added removed updated id =
    simp (Sets.includes-foldl-add, Sets.includes-foldl-remove, viewport-upsert_all) (ground arith)

-- What is shown under an id, from what is stored there.
abbrev pub shown : EventsState → String → Option SafetyEvent
shown s id = if includes id s.viewport_ids then view s id else none

includes-of_list :
    (id : String) (ids : List String) → includes id (Sets.of_list ids) ≡ includes id ids
unfolding Sets.of_list
includes-of_list id ids = ground (arith, Sets.includes-foldl-add id ids [])

-- In a valid state, the selector of the active viewport events shows under an id the event that is
-- stored there, if the id is in the viewport and the event is active, and nothing otherwise.
find_by-select_active :
    (s : EventsState) (id : String)
    → IsValid s
    → find_by (λ e. e.id) id (select_active_viewport_events s)
      ≡ keep_if (λ e. e.is_active) (shown s id)
unfolding select_active_viewport_events select_viewport_event_items
find_by-select_active s id v =
    rw
      (
        find_by-filter (λ e. e.id) (λ e. e.is_active) id _ inner,
        find_by-filter (λ e. e.id) in_viewport id s.items v.distinct_items,
      )
      (elim (Option-cases (find_by (λ e. e.id) id s.items)) [
        | inl missing ↦ rw missing (ground arith)
        | inr (e, found) ↦
            rw
              (
                found,
                find_by-key (λ x. x.id) id s.items e found,
                includes-of_list id s.viewport_ids,
              )
              (ground arith)
      ])
  where
    in_viewport : SafetyEvent → Bool
    in_viewport e = includes e.id (Sets.of_list s.viewport_ids)

    inner : Distinct (ids_of (filter in_viewport s.items))
    inner = Distinct-filter (λ e. e.id) in_viewport s.items v.distinct_items

off-hidden : (o : Option SafetyEvent) → keep_if (λ e. e.is_active) (switch_off o) ≡ none
unfolding switch_off
off-hidden none = refl
off-hidden (some e) = refl

view-resolved :
    (s : EventsState) (id : String)
    → view (reducer s (event_resolved id)) id ≡ switch_off (view s id)
view-resolved s id =
    ap (λ (m : EventMap). m id) (reducer-step s (event_resolved id)) ∙ rw (eq_refl id)

-- A resolved event is not shown as active, until another message about it arrives.
select_active-resolved :
    (s : EventsState) (id : String)
    → IsValid s
    → find_by (λ e. e.id) id (select_active_viewport_events (reducer s (event_resolved id))) ≡ none
select_active-resolved s id v =
    let s' = reducer s (event_resolved id) in
    find_by-select_active s' id (reducer-IsValid s (event_resolved id) v)
    ∙ elim (Bool-cases (includes id s'.viewport_ids)) [
      | inl inside ↦ rw (inside, view-resolved) (off-hidden (view s id))
      | inr outside ↦ rw outside
    ]
