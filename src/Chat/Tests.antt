-- ===== src/Chat/Tests.antt =====
-- Runs of the slice of chatSlice.ts, and its theorems at concrete inputs.
use sentinelmesh.Common.{
  ℕ, String, List, [], ◌∷◌, some, ◌≡◌, refl, arith, map, find_by, eq_iff, str_lt,
}
use sentinelmesh.Timeline
use sentinelmesh.Chat.{
  ChatMessage, initial_state, insert_sorted, channel_message_received, channel_history_loaded,
  reducer,
}
use sentinelmesh.Chat.Laws.{reachable_chat-IsValid, IsValid, messages_of}
use sentinelmesh.Chat.Arrivals.{receive_all, arrivals-order_free}

abbrev message : String → ℕ → ChatMessage
message id t = record {
  id = id;
  channel_id = "g";
  sender_pubkey = "ada";
  created_at = t;
  content = "hi";
}

abbrev m1 : ChatMessage
m1 = message "b" 10

abbrev m2 : ChatMessage
m2 = message "a" 10

abbrev m3 : ChatMessage
m3 = message "c" 5

abbrev arrivals : List ChatMessage
arrivals = m1 ∷ m2 ∷ m3 ∷ m1 ∷ []

program : Unit {0}
unfolding reducer channel_message_received channel_history_loaded insert_sorted
    Timeline.insert_sorted Timeline.sort Timeline.place Timeline.is_after str_lt
program = tt

ordered :
    map (λ m. m.id) (messages_of (receive_all initial_state "g" arrivals) "g")
    ≡ "c" ∷ "a" ∷ "b" ∷ []
unfolding program
ordered = refl

counted : (receive_all initial_state "g" arrivals).unread "g" ≡ some 3
unfolding program
counted = refl

initial-IsValid : IsValid initial_state
initial-IsValid = reachable_chat-IsValid []

-- Two arrivals in either order.
same_two :
    (id : String) → find_by (λ m. m.id) id (m1 ∷ m2 ∷ []) ≡ find_by (λ m. m.id) id (m2 ∷ m1 ∷ [])
same_two id = ground (arith, eq_iff "a" id, eq_iff "b" id, eq_iff "a" "b")

arrivals-order_free_example :
    messages_of (receive_all initial_state "g" (m1 ∷ m2 ∷ [])) "g"
    ≡ messages_of (receive_all initial_state "g" (m2 ∷ m1 ∷ [])) "g"
arrivals-order_free_example =
    arrivals-order_free initial_state "g" (m1 ∷ m2 ∷ []) (m2 ∷ m1 ∷ []) initial-IsValid same_two
