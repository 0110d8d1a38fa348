-- ===== src/Chat.antt =====
-- The Redux slice of public channels (apps/pwa/src/store/chatSlice.ts).
mod Laws
mod Arrivals
mod Tests
use sentinelmesh.Common.{
  ℕ, ◌+◌, String, Bool, true, false, not, List, [], Option, none, some, ◌==◌, eqb, if◌then◌else◌,
  length, foldl, Dict, empty, put, get_or,
}
use sentinelmesh.Timeline

pub record ChatMessage : Type 0 where
  pub id : String
  pub channel_id : String
  pub sender_pubkey : String
  pub created_at : ℕ
  pub content : String

pub record ChatChannelState : Type 0 where
  pub id : String
  pub group_id : String
  pub relay_url : String
  pub name : String
  pub about : String
  pub admins : List String
  pub members : List String

pub record ChatState : Type 0 where
  pub channels : Dict ChatChannelState
  pub messages : Dict (List ChatMessage)
  pub unread : Dict ℕ
  pub synced : Dict Bool
  pub active_channel_id : Option String

abbrev pub initial_state : ChatState
initial_state = record {
  channels = empty;
  messages = empty;
  unread = empty;
  synced = empty;
  active_channel_id = none;
}

unfoldable pub insert_sorted : List ChatMessage → ChatMessage → List ChatMessage
insert_sorted = Timeline.insert_sorted (λ m. m.id) (λ m. m.created_at)

-- `channel_id === activeChannelId`
abbrev pub is_active : Option String → String → Bool
is_active none id = false
is_active (some active) id = active == id

unfoldable pub channel_message_received : ChatState → String → ChatMessage → ChatState
channel_message_received s channel_id message =
    let existing = get_or [] (s.messages channel_id) in
    let next = insert_sorted existing message in
    if eqb (length next) (length existing) then s else record s {
      messages = put channel_id next s.messages;
      unread =
          if is_active s.active_channel_id channel_id
          then s.unread
          else put channel_id (get_or 0 (s.unread channel_id) + 1) s.unread;
    }

unfoldable pub channel_history_loaded : ChatState → String → List ChatMessage → ChatState
channel_history_loaded s channel_id messages =
    let next = foldl insert_sorted (get_or [] (s.messages channel_id)) messages in
    record s { messages = put channel_id next s.messages }

-- `if (id) unread[id] = 0`
abbrev pub clear : Option String → Dict ℕ → Dict ℕ
clear none unread = unread
clear (some id) unread = if id == "" then unread else put id 0 unread

pub data ChatAction : Type 0 where
  state_loaded : ChatChannelState → ChatAction
  message_received : String → ChatMessage → ChatAction
  history_loaded : String → List ChatMessage → ChatAction
  synced : String → ChatAction
  unread_cleared : String → ChatAction
  active_channel_changed : Option String → ChatAction
  chat_reset : ChatAction

unfoldable pub reducer : ChatState → ChatAction → ChatState
reducer s (state_loaded channel) = record s {
  channels = put channel.id channel s.channels;
  active_channel_id = some channel.id;
}
reducer s (message_received channel_id message) = channel_message_received s channel_id message
reducer s (history_loaded channel_id messages) = channel_history_loaded s channel_id messages
reducer s (synced channel_id) = record s { synced = put channel_id true s.synced }
reducer s (unread_cleared channel_id) = record s { unread = put channel_id 0 s.unread }
reducer s (active_channel_changed id) = record s {
  active_channel_id = id;
  unread = clear id s.unread;
}
reducer s chat_reset = initial_state
