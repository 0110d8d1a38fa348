-- ===== src/Sync/Live.antt =====
-- What a live subscription hands on.
use sentinelmesh.Common.{
  ℕ, String, Bool, true, ◌&&◌, ◌||◌, not, List, [], ◌∷◌, Option, none, some, ◌==◌, ◌≡◌,
  if◌then◌else◌, map, includes, find_by, or_else, Distinct, find_by-append, arith, Bool-cases, inl,
  inr, eq_iff, or_else_assoc, or_else-none, sym, ap, ◌∙◌, map-append,
}
use sentinelmesh.Common.Sets
use sentinelmesh.Validation.{NostrEvent}
use sentinelmesh.Nip29.{validate_channel_message}
use sentinelmesh.Sync.{LiveState, on_event}

abbrev pub IsLive : LiveState → Type 0
IsLive s =
    Distinct (map (λ e. e.id) s.delivered)
    × ((k : String) → includes k (map (λ e. e.id) s.delivered) ≡ true → includes k s.seen ≡ true)

module _ (verify : NostrEvent → Bool) (group_id : String) where
  abbrev is_valid : ℕ → NostrEvent → Bool
  is_valid now e = validate_channel_message verify e group_id now

  -- A run of the handler over the arrivals, each with the time at which it arrives.
  abbrev pub receive_all : LiveState → List (ℕ × NostrEvent) → LiveState
  receive_all s [] = s
  receive_all s (arrival ∷ arrivals) =
      receive_all (on_event verify group_id arrival.0 s arrival.1) arrivals

  -- The first arrival with an id that is valid when it arrives.
  abbrev pub first_valid : String → List (ℕ × NostrEvent) → Option NostrEvent
  first_valid k [] = none
  first_valid k (arrival ∷ arrivals) =
      if is_valid arrival.0 arrival.1 && arrival.1.id == k
      then some arrival.1
      else first_valid k arrivals

  on_event-IsLive :
      (now : ℕ) (s : LiveState) (event : NostrEvent)
      → IsLive s
      → IsLive (on_event verify group_id now s event)
  unfolding on_event
  on_event-IsLive now s event h = elim (Bool-cases (is_valid now event)) [
    | inl valid ↦ elim (Bool-cases (includes event.id s.seen)) [
      | inl old ↦ rw (valid, old) h
      | inr new ↦
          rw (valid, new)
            (
              rw (map-append) (Sets.Distinct-append _ event.id h.0 (ground (arith, h.1 event.id))),
              λ k. rw (map-append, Sets.includes-append, Sets.includes-add) (ground (arith, h.1 k)),
            )
    ]
    | inr invalid ↦ rw invalid h
  ]

  includes-on_event :
      (k : String) (now : ℕ) (s : LiveState) (event : NostrEvent)
      → includes k (on_event verify group_id now s event).seen
        ≡ (includes k s.seen || (is_valid now event && event.id == k))
  unfolding on_event
  includes-on_event k now s event = elim (Bool-cases (includes event.id s.seen)) [
    | inl old ↦ ground (arith, old, eq_iff event.id k)
    | inr new ↦ rw new (ground (arith, Sets.includes-add k s.seen event.id))
  ]

  find_by-on_event :
      (k : String) (now : ℕ) (s : LiveState) (event : NostrEvent)
      → find_by (λ e. e.id) k (on_event verify group_id now s event).delivered
        ≡ or_else (find_by (λ e. e.id) k s.delivered) (
            if is_valid now event && (event.id == k && not (includes k s.seen))
            then some event
            else none)
  unfolding on_event
  find_by-on_event k now s event = elim (Bool-cases (is_valid now event)) [
    | inl valid ↦ elim (Bool-cases (includes event.id s.seen)) [
      | inl old ↦
          rw (valid, old)
            (ground (arith, eq_iff event.id k, or_else-none (find_by (λ e. e.id) k s.delivered)))
      | inr new ↦
          rw (valid, new, find_by-append (λ e. e.id) k s.delivered (event ∷ []))
            (ground (arith, eq_iff event.id k))
    ]
    | inr invalid ↦ rw invalid (sym (or_else-none _))
  ]

  receive_all-IsLive :
      (arrivals : List (ℕ × NostrEvent)) (s : LiveState)
      → IsLive s
      → IsLive (receive_all s arrivals)
  receive_all-IsLive [] s h = h
  receive_all-IsLive (a ∷ rest) s h = receive_all-IsLive rest _ (on_event-IsLive a.0 s a.1 h)

  find_by-receive_all :
      (k : String) (arrivals : List (ℕ × NostrEvent)) (s : LiveState)
      → find_by (λ e. e.id) k (receive_all s arrivals).delivered
        ≡ or_else
            (find_by (λ e. e.id) k s.delivered)
            (if includes k s.seen then none else first_valid k arrivals)
  find_by-receive_all k [] s = ground (arith, or_else-none (find_by (λ e. e.id) k s.delivered))
  find_by-receive_all k (a ∷ rest) s =
      let next = on_event verify group_id a.0 s a.1 in
      let later = if includes k next.seen then none else first_valid k rest in
      find_by-receive_all k rest next
      ∙ ap (λ o. or_else o later) (find_by-on_event k a.0 s a.1)
      ∙ or_else_assoc (find_by (λ e. e.id) k s.delivered)
          (if is_valid a.0 a.1 && (a.1.id == k && not (includes k s.seen)) then some a.1 else none)
          later
      ∙ ap (or_else (find_by (λ e. e.id) k s.delivered))
          (ground (arith, includes-on_event k a.0 s a.1))

  -- From any set of ids seen before, whatever arrives in whatever order and however often: no id is handed on twice, and the event handed on under an id is the first arrival with it that is valid for the group when it arrives, or none if the id was seen before.
  pub delivered-once :
      (seen : List String) (arrivals : List (ℕ × NostrEvent)) (k : String)
      → let s = receive_all (record { seen = seen; delivered = [] }) arrivals in
        Distinct (map (λ e. e.id) s.delivered)
        × (find_by (λ e. e.id) k s.delivered
            ≡ (if includes k seen then none else first_valid k arrivals))
  delivered-once seen arrivals k =
      let start : LiveState = record { seen = seen; delivered = [] } in
      (
        (receive_all-IsLive arrivals start (tt, λ j h. absurd (ground arith))).0,
        find_by-receive_all k arrivals start,
      )
