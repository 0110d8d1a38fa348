-- ===== src/Sync/Tests.antt =====
-- Runs of the channel's sync, and the theorems at concrete events.
use sentinelmesh.Common.{
  ℕ, str_lt, String, Bool, true, List, [], ◌∷◌, none, ◌≡◌, refl, if◌then◌else◌, includes, map,
  find_by, Distinct,
}
use sentinelmesh.Timeline.{sort, place, is_after}
use sentinelmesh.Validation.{NostrEvent}
use sentinelmesh.Sync.{merge_unique, map_set}
use sentinelmesh.Sync.Live.{receive_all, first_valid, delivered-once}

abbrev alice : String
alice = "00000000000000000000000000000000000000000000000000000000000000aa"

abbrev event_at : String → ℕ → NostrEvent
event_at id at = record {
  id = id;
  pubkey = alice;
  created_at = at;
  kind = 9;
  tags = ("h" ∷ "g" ∷ []) ∷ [];
  content = "hello";
}

abbrev accept_all : NostrEvent → Bool
accept_all event = true

abbrev three : List NostrEvent
three = event_at "b" 20 ∷ event_at "a" 10 ∷ event_at "b" 20 ∷ []

merged : merge_unique three ≡ event_at "a" 10 ∷ event_at "b" 20 ∷ []
unfolding merge_unique map_set sort place is_after str_lt
merged = refl

abbrev arrivals : List (ℕ × NostrEvent)
arrivals = (25, event_at "b" 20) ∷ (26, event_at "a" 10) ∷ (27, event_at "b" 20) ∷ []

delivered-once_example :
    let s = receive_all accept_all "g" (record { seen = "a" ∷ []; delivered = [] }) arrivals in
    Distinct (map (λ e. e.id) s.delivered)
    × (find_by (λ e. e.id) "b" s.delivered
        ≡ (if includes "b" ("a" ∷ []) then none else first_valid accept_all "g" "b" arrivals))
delivered-once_example = delivered-once accept_all "g" ("a" ∷ []) arrivals "b"
