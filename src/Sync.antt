-- ===== src/Sync.antt =====
-- Live and historical messages of a public channel (apps/pwa/src/services/chat/chatSync.ts). The
-- relay client is a parameter: the events that a subscription delivers are a list in the order of
-- arrival, and `query` answers a filter.
pub mod Live
pub mod History
mod Tests
use sentinelmesh.Common.{
  ℕ, ◌-◌, String, Bool, true, false, List, [], ◌∷◌, ◌++◌, Option, none, some, if◌then◌else◌, eqb,
  set, filter, includes, index_by, foldl, get_or,
}
use sentinelmesh.Common.Sets
use sentinelmesh.Timeline
use sentinelmesh.Validation.{NostrEvent}
use sentinelmesh.Nip29.{validate_channel_message}

abbrev pub channel_history_limit : ℕ
channel_history_limit = 200

abbrev pub channel_sync_overlap_seconds : ℕ
channel_sync_overlap_seconds = 60

-- `Filter` with kind 9 and the group's `h` tag.
pub record ChannelFilter : Type 0 where
  pub group_id : String
  pub since : Option ℕ
  pub until : Option ℕ
  pub limit : Option ℕ

-- `if (n) filter.x = n`: 0 counts as absent.
abbrev pub nonzero : Option ℕ → Option ℕ
nonzero none = none
nonzero (some n) = if eqb n 0 then none else some n

unfoldable pub live_filter : String → Option ℕ → ChannelFilter
live_filter group_id since = record {
  group_id = group_id;
  since = nonzero since;
  until = none;
  limit = none;
}

-- The set of ids seen, and the events handed to `onEvent`, in order.
pub record LiveState : Type 0 where
  pub seen : List String
  pub delivered : List NostrEvent

-- The handler that `subscribeChannel` passes on, with the clock at the event's arrival.
unfoldable pub on_event : (NostrEvent → Bool) → String → ℕ → LiveState → NostrEvent → LiveState
on_event verify group_id now s event =
    if validate_channel_message verify event group_id now
    then (if includes event.id s.seen
        then s
        else record s { seen = Sets.add s.seen event.id; delivered = s.delivered ++ (event ∷ []) })
    else s

-- A `Map` from ids as its values in order: a key that is there keeps its place.
unfoldable pub map_set : List NostrEvent → NostrEvent → List NostrEvent
map_set events event = elim (index_by (λ e. e.id) event.id events) [
  | none ↦ events ++ (event ∷ [])
  | some i ↦ set events i event
]

unfoldable pub merge_unique : List NostrEvent → List NostrEvent
merge_unique events = Timeline.sort (λ e. e.id) (λ e. e.created_at) (foldl map_set [] events)

unfoldable pub fetch_channel_history :
    (NostrEvent → Bool)
    → (ChannelFilter → List NostrEvent)
    → ℕ
    → String
    → Option ℕ
    → Option ℕ
    → Option ℕ
    → List NostrEvent
fetch_channel_history verify query now group_id since until limit =
    let asked : ChannelFilter = record {
      group_id = group_id;
      since = nonzero since;
      until = nonzero until;
      limit = some (get_or channel_history_limit limit);
    } in
    merge_unique (filter (λ e. validate_channel_message verify e group_id now) (query asked))

-- `Math.max(0, lastCreatedAt - 60)`
unfoldable pub resume_since : ℕ → ℕ
resume_since last_created_at = last_created_at - channel_sync_overlap_seconds
