-- ===== src/Chat/Arrivals.antt =====
-- Messages that arrive live, or as history, on a channel of chatSlice.ts.
use sentinelmesh.Common.{
  ◌+◌, String, Bool, true, false, not, ◌&&◌, List, [], ◌∷◌, map, foldl, some, ◌≡◌, refl, arith, ap,
  sym, ◌∙◌, ◌==◌, eq_refl, eqb, if◌then◌else◌, length, Bool-cases, inl, inr, includes,
  includes_of_not_any, find_by, get_or,
}
use sentinelmesh.Timeline
use sentinelmesh.Timeline.Order
use sentinelmesh.Timeline.Arrivals
use sentinelmesh.Chat.{
  ChatMessage, ChatState, message_received, history_loaded, insert_sorted, is_active,
  channel_message_received, channel_history_loaded, reducer,
}
use sentinelmesh.Chat.Laws.{IsValid, messages_of}

-- The channel has a message with the id.
abbrev pub is_known : ChatState → String → String → Bool
is_known s channel_id id = includes id (map (λ m. m.id) (messages_of s channel_id))

length-insert_sorted :
    (xs : List ChatMessage) (m : ChatMessage)
    → length (insert_sorted xs m)
      ≡ (if includes m.id (map (λ x. x.id) xs) then length xs else length xs + 1)
unfolding insert_sorted
length-insert_sorted xs m = Arrivals.length-insert_sorted (λ x. x.id) (λ x. x.created_at) xs m

insert_sorted_known :
    (xs : List ChatMessage) (m : ChatMessage)
    → includes m.id (map (λ x. x.id) xs) ≡ true
    → insert_sorted xs m ≡ xs
unfolding insert_sorted Timeline.insert_sorted
insert_sorted_known xs m h = rw (includes_of_not_any (λ x. x.id) m.id xs, h)

-- The test `next.length !== existing.length`.
same_length :
    (s : ChatState) (c : String) (m : ChatMessage)
    → eqb (length (insert_sorted (messages_of s c) m)) (length (messages_of s c))
      ≡ is_known s c m.id
same_length s c m = ground (arith, length-insert_sorted (messages_of s c) m)

received_known :
    (s : ChatState) (c : String) (m : ChatMessage)
    → is_known s c m.id ≡ true
    → channel_message_received s c m ≡ s
unfolding channel_message_received
received_known s c m h = rw (same_length s c m ∙ h, channel_message_received)

-- Receiving a message puts it in its place in the channel's list, if its id is new.
messages_of-received :
    (s : ChatState) (c : String) (m : ChatMessage)
    → messages_of (reducer s (message_received c m)) c ≡ insert_sorted (messages_of s c) m
unfolding reducer channel_message_received
messages_of-received s c m = elim (Bool-cases (is_known s c m.id)) [
  | inl old ↦
      rw (same_length s c m ∙ old, channel_message_received) (sym (insert_sorted_known _ m old))
  | inr new ↦ rw (same_length s c m ∙ new, channel_message_received) (rw (eq_refl c))
]

-- Receiving a message counts one unread message on its channel exactly when its id is new there
-- and the channel is not the active one; the other counts stay.
unread-received :
    (s : ChatState) (c k : String) (m : ChatMessage)
    → (reducer s (message_received c m)).unread k ≡ (
        if c == k && (not (is_known s c m.id) && not (is_active s.active_channel_id c))
        then some (get_or 0 (s.unread c) + 1)
        else s.unread k)
unfolding reducer channel_message_received
unread-received s c k m = elim (Bool-cases (is_known s c m.id)) [
  | inl old ↦ rw (same_length s c m ∙ old, channel_message_received) (ground (arith, old))
  | inr new ↦ rw (same_length s c m ∙ new, channel_message_received) (ground (arith, new))
]

known-insert_sorted :
    (xs : List ChatMessage) (m : ChatMessage)
    → includes m.id (map (λ x. x.id) (insert_sorted xs m)) ≡ true
unfolding insert_sorted
known-insert_sorted xs m = Order.includes-insert_sorted_self (λ x. x.id) (λ x. x.created_at) xs m

-- A message that arrives a second time, by any relay, changes nothing at all.
received_twice :
    (s : ChatState) (c : String) (m : ChatMessage)
    → reducer (reducer s (message_received c m)) (message_received c m)
      ≡ reducer s (message_received c m)
unfolding reducer
received_twice s c m =
    received_known (reducer s (message_received c m)) c m
      (rw (messages_of-received s c m) (known-insert_sorted (messages_of s c) m))

-- The live arrivals of a list of messages on one channel.
abbrev pub receive_all : ChatState → String → List ChatMessage → ChatState
receive_all s c [] = s
receive_all s c (m ∷ ms) = receive_all (reducer s (message_received c m)) c ms

receive_all-insert_all :
    (ms : List ChatMessage) (s : ChatState) (c : String)
    → messages_of (receive_all s c ms) c ≡ foldl insert_sorted (messages_of s c) ms
receive_all-insert_all [] s c = refl
receive_all-insert_all (m ∷ ms) s c =
    receive_all-insert_all ms (reducer s (message_received c m)) c
    ∙ ap (λ xs. foldl insert_sorted xs ms) (messages_of-received s c m)

-- Messages that arrive one by one leave the same list on their channel as the same messages loaded
-- as one history.
live-history :
    (ms : List ChatMessage) (s : ChatState) (c : String)
    → messages_of (receive_all s c ms) c ≡ messages_of (reducer s (history_loaded c ms)) c
unfolding reducer channel_history_loaded
live-history ms s c = receive_all-insert_all ms s c ∙ rw (eq_refl c)

-- The order of arrival does not matter: in a valid state, two sequences of live messages in which
-- the first message under each id is the same leave the same list on their channel.
pub arrivals-order_free :
    (s : ChatState) (c : String) (ms ns : List ChatMessage)
    → IsValid s
    → ((id : String) → find_by (λ m. m.id) id ms ≡ find_by (λ m. m.id) id ns)
    → messages_of (receive_all s c ms) c ≡ messages_of (receive_all s c ns) c
unfolding insert_sorted
arrivals-order_free s c ms ns v h =
    receive_all-insert_all ms s c
    ∙ Arrivals.insert_all-order_free (λ m. m.id) (λ m. m.created_at) ms ns (messages_of s c) (v c) h
    ∙ sym (receive_all-insert_all ns s c)

active-received :
    (s : ChatState) (c : String) (m : ChatMessage)
    → (reducer s (message_received c m)).active_channel_id ≡ s.active_channel_id
unfolding reducer channel_message_received
active-received s c m = elim (Bool-cases (is_known s c m.id)) [
  | inl old ↦ rw (same_length s c m ∙ old, channel_message_received)
  | inr new ↦ rw (same_length s c m ∙ new, channel_message_received)
]

unread-step :
    (s : ChatState) (c : String) (m : ChatMessage)
    → is_active s.active_channel_id c ≡ false
    → get_or 0 ((reducer s (message_received c m)).unread c) + length (messages_of s c)
      ≡ get_or 0 (s.unread c) + length (messages_of (reducer s (message_received c m)) c)
unread-step s c m h =
    rw
      (
        unread-received s c c m,
        messages_of-received s c m,
        length-insert_sorted (messages_of s c) m,
        h,
      )
      (rw (eq_refl c) (ground arith))

-- While a channel is not active, its unread count grows by as much as its list of messages does.
unread-receive_all :
    (ms : List ChatMessage) (s : ChatState) (c : String)
    → is_active s.active_channel_id c ≡ false
    → get_or 0 ((receive_all s c ms).unread c) + length (messages_of s c)
      ≡ get_or 0 (s.unread c) + length (messages_of (receive_all s c ms) c)
unread-receive_all [] s c h = refl
unread-receive_all (m ∷ ms) s c h =
    let s' = reducer s (message_received c m) in
    omega (arith, unread-step s c m h, unread-receive_all ms s' c (rw (active-received s c m) h))
