-- ===== src/Dm.antt =====
-- The Redux slice of encrypted conversations (apps/pwa/src/store/dmSlice.ts): direct messages and
-- circle rooms.
mod Laws
mod Tests
use sentinelmesh.Common.{
  ℕ, ◌+◌, String, Bool, false, List, [], Option, none, some, ◌==◌, eqb, if◌then◌else◌, length,
  foldl, Dict, empty, put, get_or,
}
use sentinelmesh.Timeline

pub data DmConversationKind : Type 0 where
  dm circle : DmConversationKind

pub record DmConversation : Type 0 where
  pub id : String
  pub kind : DmConversationKind
  pub title : String
  pub participants : List String

pub record DmMessage : Type 0 where
  pub id : String
  pub conversation_id : String
  pub sender_pubkey : String
  pub created_at : ℕ
  pub content : String

pub record DmState : Type 0 where
  pub conversations : Dict DmConversation
  pub messages : Dict (List DmMessage)
  pub unread : Dict ℕ
  pub active_conversation_id : Option String

abbrev pub initial_state : DmState
initial_state = record {
  conversations = empty;
  messages = empty;
  unread = empty;
  active_conversation_id = none;
}

unfoldable pub insert_sorted : List DmMessage → DmMessage → List DmMessage
insert_sorted = Timeline.insert_sorted (λ m. m.id) (λ m. m.created_at)

unfoldable pub conversation_added : DmState → DmConversation → DmState
conversation_added s conversation = elim (s.conversations conversation.id) [
  | none ↦ record s { conversations = put conversation.id conversation s.conversations }
  | some _ ↦ s
]

abbrev pub is_active : Option String → String → Bool
is_active none id = false
is_active (some active) id = active == id

unfoldable pub message_received : DmState → String → DmMessage → DmState
message_received s id message =
    let existing = get_or [] (s.messages id) in
    let next = insert_sorted existing message in
    if eqb (length next) (length existing) then s else record s {
      messages = put id next s.messages;
      unread =
          if is_active s.active_conversation_id id
          then s.unread
          else put id (get_or 0 (s.unread id) + 1) s.unread;
    }

unfoldable pub history_loaded : DmState → String → List DmMessage → DmState
history_loaded s id messages = record s {
  messages = put id (foldl insert_sorted (get_or [] (s.messages id)) messages) s.messages;
}

abbrev pub clear : Option String → Dict ℕ → Dict ℕ
clear none unread = unread
clear (some id) unread = if id == "" then unread else put id 0 unread

pub data DmAction : Type 0 where
  added : DmConversation → DmAction
  received : String → DmMessage → DmAction
  loaded : String → List DmMessage → DmAction
  active_conversation_changed : Option String → DmAction
  dm_reset : DmAction

unfoldable pub reducer : DmState → DmAction → DmState
reducer s (added conversation) = conversation_added s conversation
reducer s (received id message) = message_received s id message
reducer s (loaded id messages) = history_loaded s id messages
reducer s (active_conversation_changed id) = record s {
  active_conversation_id = id;
  unread = clear id s.unread;
}
reducer s dm_reset = initial_state
