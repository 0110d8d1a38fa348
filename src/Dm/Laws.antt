-- ===== src/Dm/Laws.antt =====
-- The conversations of dmSlice.ts: each is filed under its own id and stays what it was first
-- taken for, and its messages form a timeline.
use sentinelmesh.Common.{
  String, List, [], ◌∷◌, foldl, some, ◌≡◌, ◌≢◌, refl, arith, ◌==◌, eq_iff, eqb, length, Bool-cases,
  Option-cases, inl, inr, put, get_or,
}
use sentinelmesh.Timeline.Order
use sentinelmesh.Dm.{
  DmConversation, DmMessage, DmState, DmAction, added, received, loaded,
  active_conversation_changed, dm_reset, initial_state, insert_sorted, conversation_added,
  message_received, history_loaded, reducer,
}

abbrev pub IsTimeline : List DmMessage → Type 0
IsTimeline = Order.IsTimeline (λ m. m.id) (λ m. m.created_at)

abbrev pub messages_of : DmState → String → List DmMessage
messages_of s id = get_or [] (s.messages id)

pub record IsValid (s : DmState) : Type 0 where
  pub timelines : (id : String) → IsTimeline (messages_of s id)
  pub filed : (id : String) (c : DmConversation) → s.conversations id ≡ some c → c.id ≡ id

put-IsTimeline :
    (s : DmState) (c : String) (xs : List DmMessage)
    → IsValid s
    → IsTimeline xs
    → (k : String) → IsTimeline (get_or [] (put c xs s.messages k))
put-IsTimeline s c xs v t k = elim (Bool-cases (c == k)) [
  | inl y ↦ rw y t
  | inr n ↦ rw n (v.timelines k)
]

added-IsValid : (s : DmState) (c : DmConversation) → IsValid s → IsValid (conversation_added s c)
unfolding conversation_added
added-IsValid s c v = elim (Option-cases (s.conversations c.id)) [
  | inl e ↦
      rw (e, conversation_added)
        (record {
          timelines = v.timelines;
          filed = λ k d h. elim (Bool-cases (c.id == k)) [
            | inl y ↦ ground (arith, eq_iff c.id k)
            | inr n ↦ v.filed k d (rw n at h)
          ];
        })
  | inr (d, e) ↦ rw (e, conversation_added) v
]

received-IsValid :
    (s : DmState) (c : String) (m : DmMessage) → IsValid s → IsValid (message_received s c m)
unfolding message_received insert_sorted
received-IsValid s c m v =
    elim (Bool-cases
      (eqb (length (insert_sorted (messages_of s c) m)) (length (messages_of s c)))) [
        | inl e ↦ rw (e, message_received) v
        | inr e ↦
            rw (e, message_received)
              (record {
                timelines = put-IsTimeline s c (insert_sorted (messages_of s c) m) v (
                    Order.insert_sorted-IsTimeline (λ x. x.id) (λ x. x.created_at) (messages_of s c)
                      m (v.timelines c));
                filed = v.filed;
              })
      ]

initial-IsValid : IsValid initial_state
initial-IsValid = record { timelines = λ id. (tt, tt); filed = λ id c h. absurd (ground arith) }

pub reducer-IsValid : (s : DmState) (a : DmAction) → IsValid s → IsValid (reducer s a)
unfolding reducer history_loaded insert_sorted
reducer-IsValid s (added c) v = added-IsValid s c v
reducer-IsValid s (received c m) v = received-IsValid s c m v
reducer-IsValid s (loaded c ms) v = record {
  timelines = put-IsTimeline s c (foldl insert_sorted (messages_of s c) ms) v (
      Order.insert_all-IsTimeline (λ x. x.id) (λ x. x.created_at) ms (messages_of s c)
        (v.timelines c));
  filed = v.filed;
}
reducer-IsValid s (active_conversation_changed id) v = record {
  timelines = v.timelines;
  filed = v.filed;
}
reducer-IsValid s dm_reset v = initial-IsValid

run-IsValid :
    (actions : List DmAction) (s : DmState) → IsValid s → IsValid (foldl reducer s actions)
run-IsValid [] s v = v
run-IsValid (a ∷ actions) s v = run-IsValid actions (reducer s a) (reducer-IsValid s a v)

-- Whatever actions are dispatched to the initial state, the messages of each conversation are
-- sorted by time and then by id with no id twice, and each conversation is filed under its own id.
reachable_dm-IsValid : (actions : List DmAction) → IsValid (foldl reducer initial_state actions)
reachable_dm-IsValid actions = run-IsValid actions initial_state initial-IsValid

-- The actions that do not reset the slice.
abbrev pub NoReset : List DmAction → Type 0
NoReset [] = Unit
NoReset (a ∷ actions) = (a ≢ dm_reset) × NoReset actions

step-keeps :
    (s : DmState) (a : DmAction) (id : String) (c : DmConversation)
    → a ≢ dm_reset
    → s.conversations id ≡ some c
    → (reducer s a).conversations id ≡ some c
unfolding reducer conversation_added message_received history_loaded
step-keeps s (added d) id c n h = elim (Option-cases (s.conversations d.id)) [
  | inl e ↦ rw (e, conversation_added) (ground (arith, eq_iff d.id id))
  | inr (_, e) ↦ rw (e, conversation_added) h
]
step-keeps s (received k m) id c n h =
    elim (Bool-cases
      (eqb (length (insert_sorted (messages_of s k) m)) (length (messages_of s k)))) [
        | inl e ↦ rw (e, message_received) h
        | inr e ↦ rw (e, message_received) h
      ]
step-keeps s (loaded k ms) id c n h = h
step-keeps s (active_conversation_changed k) id c n h = h
step-keeps s dm_reset id c n h = absurd (n refl)

-- Until the slice is reset, a conversation keeps the kind, title and participants that it was first
-- added with, whatever arrives later under its id.
added-keeps :
    (actions : List DmAction) (s : DmState) (id : String) (c : DmConversation)
    → NoReset actions
    → s.conversations id ≡ some c
    → (foldl reducer s actions).conversations id ≡ some c
added-keeps [] s id c n h = h
added-keeps (a ∷ actions) s id c n h =
    added-keeps actions (reducer s a) id c n.1 (step-keeps s a id c n.0 h)
