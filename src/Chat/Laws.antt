-- ===== src/Chat/Laws.antt =====
-- The channels of chatSlice.ts: ordered and duplicate-free message lists, and the unread counts.
use sentinelmesh.Common.{
  String, List, [], ◌∷◌, foldl, ◌==◌, eqb, length, Bool-cases, inl, inr, put, get_or,
}
use sentinelmesh.Timeline.Order
use sentinelmesh.Chat.{
  ChatMessage, ChatState, ChatAction, state_loaded, message_received, history_loaded, synced,
  unread_cleared, active_channel_changed, chat_reset, initial_state, insert_sorted,
  channel_message_received, channel_history_loaded, reducer,
}

abbrev pub IsTimeline : List ChatMessage → Type 0
IsTimeline = Order.IsTimeline (λ m. m.id) (λ m. m.created_at)

-- The messages of a channel, none if it has no entry.
abbrev pub messages_of : ChatState → String → List ChatMessage
messages_of s channel_id = get_or [] (s.messages channel_id)

-- The messages of each channel are sorted by time and then by id, and no id stands twice.
abbrev pub IsValid : ChatState → Type 0
IsValid s = (channel_id : String) → IsTimeline (messages_of s channel_id)

put-IsTimeline :
    (s : ChatState) (c : String) (xs : List ChatMessage)
    → IsValid s
    → IsTimeline xs
    → (k : String) → IsTimeline (get_or [] (put c xs s.messages k))
put-IsTimeline s c xs v t k = elim (Bool-cases (c == k)) [ inl y ↦ rw y t | inr n ↦ rw n (v k) ]

received-IsValid :
    (s : ChatState) (c : String) (m : ChatMessage)
    → IsValid s
    → IsValid (channel_message_received s c m)
unfolding channel_message_received insert_sorted
received-IsValid s c m v =
    elim (Bool-cases
      (eqb (length (insert_sorted (messages_of s c) m)) (length (messages_of s c)))) [
        | inl e ↦ rw (e, channel_message_received) v
        | inr e ↦
            rw (e, channel_message_received)
              (put-IsTimeline s c (insert_sorted (messages_of s c) m) v (
                Order.insert_sorted-IsTimeline (λ x. x.id) (λ x. x.created_at) (messages_of s c) m
                  (v c)))
      ]

pub reducer-IsValid : (s : ChatState) (a : ChatAction) → IsValid s → IsValid (reducer s a)
unfolding reducer channel_history_loaded insert_sorted
reducer-IsValid s (state_loaded channel) v = v
reducer-IsValid s (message_received c m) v = received-IsValid s c m v
reducer-IsValid s (history_loaded c ms) v =
    put-IsTimeline s c (foldl insert_sorted (messages_of s c) ms) v
      (Order.insert_all-IsTimeline (λ x. x.id) (λ x. x.created_at) ms (messages_of s c) (v c))
reducer-IsValid s (synced c) v = v
reducer-IsValid s (unread_cleared c) v = v
reducer-IsValid s (active_channel_changed id) v = v
reducer-IsValid s chat_reset v = λ c. (tt, tt)

run-IsValid :
    (actions : List ChatAction) (s : ChatState) → IsValid s → IsValid (foldl reducer s actions)
run-IsValid [] s v = v
run-IsValid (a ∷ actions) s v = run-IsValid actions (reducer s a) (reducer-IsValid s a v)

-- Whatever actions are dispatched to the initial state, the messages of each channel are sorted by
-- time and then by id, and no id stands twice.
pub reachable_chat-IsValid :
    (actions : List ChatAction) → IsValid (foldl reducer initial_state actions)
reachable_chat-IsValid actions = run-IsValid actions initial_state (λ c. (tt, tt))
