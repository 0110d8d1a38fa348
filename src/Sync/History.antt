-- ===== src/Sync/History.antt =====
-- What a history query returns.
use sentinelmesh.Common.{
  String, List, [], ◌∷◌, Option, none, some, ◌==◌, ◌≡◌, refl, if◌then◌else◌, map, find_by, foldl,
  or_else, Distinct, arith, inl, inr, eq_iff, or_else_assoc, or_else-none, sym, map-append, ap, ◌∙◌,
  subst, ◌↔◌, includes_of_index_none, locate, find_by-set, map-key-set, find_by-append,
}
use sentinelmesh.Common.Sets
use sentinelmesh.Timeline.Order.{IsTimeline, sort-IsTimeline}
use sentinelmesh.Timeline.Arrivals.{find_by-sort, timeline_ext}
use sentinelmesh.Validation.{NostrEvent}
use sentinelmesh.Sync.{map_set, merge_unique}

-- The last event with an id.
abbrev pub last_by : String → List NostrEvent → Option NostrEvent
last_by k [] = none
last_by k (e ∷ es) = or_else (last_by k es) (if e.id == k then some e else none)

map_set-Distinct :
    (es : List NostrEvent) (e : NostrEvent)
    → Distinct (map (λ e. e.id) es)
    → Distinct (map (λ e. e.id) (map_set es e))
unfolding map_set
map_set-Distinct es e h = elim (locate (λ e. e.id) e.id es) [
  | inl (i, f) ↦
      rw (i, map_set, map-append)
        (Sets.Distinct-append _ e.id h (includes_of_index_none (λ e. e.id) e.id es i))
  | inr (n, x, i, g, f, k) ↦ rw (i, map_set, map-key-set (λ e. e.id) e.id es n e i refl) h
]

find_by-map_set :
    (k : String) (es : List NostrEvent) (e : NostrEvent)
    → find_by (λ e. e.id) k (map_set es e)
      ≡ (if e.id == k then some e else find_by (λ e. e.id) k es)
unfolding map_set
find_by-map_set k es e = elim (locate (λ e. e.id) e.id es) [
  | inl (i, f) ↦
      rw (i, map_set, find_by-append (λ e. e.id) k es (e ∷ []))
        (ground (arith, eq_iff e.id k, or_else-none (find_by (λ e. e.id) k es)))
  | inr (n, x, i, g, f, j) ↦ rw (i, map_set) (find_by-set (λ e. e.id) e.id k es n e i refl)
]

map_set_all-Distinct :
    (events es : List NostrEvent)
    → Distinct (map (λ e. e.id) es)
    → Distinct (map (λ e. e.id) (foldl map_set es events))
map_set_all-Distinct [] es h = h
map_set_all-Distinct (e ∷ events) es h =
    map_set_all-Distinct events (map_set es e) (map_set-Distinct es e h)

find_by-map_set_all :
    (k : String) (events es : List NostrEvent)
    → find_by (λ e. e.id) k (foldl map_set es events)
      ≡ or_else (last_by k events) (find_by (λ e. e.id) k es)
find_by-map_set_all k [] es = refl
find_by-map_set_all k (e ∷ events) es =
    find_by-map_set_all k events (map_set es e)
    ∙ ap (or_else (last_by k events)) (find_by-map_set k es e ∙ ground arith)
    ∙ sym (or_else_assoc (last_by k events) (if e.id == k then some e else none) _)

merge_unique-IsTimeline :
    (events : List NostrEvent) → IsTimeline (λ e. e.id) (λ e. e.created_at) (merge_unique events)
unfolding merge_unique
merge_unique-IsTimeline events =
    sort-IsTimeline (λ e. e.id) (λ e. e.created_at) (foldl map_set [] events)
      (map_set_all-Distinct events [] tt)

find_by-merge_unique :
    (k : String) (events : List NostrEvent)
    → find_by (λ e. e.id) k (merge_unique events) ≡ last_by k events
unfolding merge_unique
find_by-merge_unique k events =
    find_by-sort (λ e. e.id) (λ e. e.created_at) k (foldl map_set [] events)
      (map_set_all-Distinct events [] tt)
    ∙ find_by-map_set_all k events []
    ∙ or_else-none (last_by k events)

-- The merged list is in order of time and then of id, with no id twice, and holds under each id the last of the given events with that id; no list but this one does.
merge_unique_iff :
    (events merged : List NostrEvent)
    → (merge_unique events ≡ merged) ↔ (
        IsTimeline (λ e. e.id) (λ e. e.created_at) merged
        × ((k : String) → find_by (λ e. e.id) k merged ≡ last_by k events))
merge_unique_iff events merged = (
  λ e.
      subst
        (λ m.
          IsTimeline (λ e. e.id) (λ e. e.created_at) m
          × ((k : String) → find_by (λ e. e.id) k m ≡ last_by k events))
        e (merge_unique-IsTimeline events, λ k. find_by-merge_unique k events),
  λ h.
      timeline_ext (λ e. e.id) (λ e. e.created_at) _ _ (merge_unique-IsTimeline events) h.0
        (λ k. find_by-merge_unique k events ∙ sym (h.1 k)),
)
