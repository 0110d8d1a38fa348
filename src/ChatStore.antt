-- ===== src/ChatStore.antt =====
-- The durable chat storage (apps/pwa/src/services/chat/chatStore.ts): its database and all its
-- operations, but the outbox's, which stand in Outbox. An object store is the list of its rows in the
-- order of their keys, as IndexedDB keeps it; that the database can be opened and written is taken for
-- granted. Web Crypto, TextEncoder and base64 are a parameter. Times are natural numbers.
pub mod Tables
pub mod Cursors
pub mod Order
pub mod Newest
pub mod Channels
pub mod Sealing
pub mod KeyCalls
mod Tests
use sentinelmesh.Common.{
  ℕ, String, Bool, true, false, not, List, [], ◌∷◌, ◌++◌, map, Option, none, some, ◌==◌, length,
  ltb, take, drop, and_then, only_if, find_by, if◌then◌else◌, get_or,
}
use sentinelmesh.Types.{Json}
use sentinelmesh.Vault.{CryptoKey}
use sentinelmesh.ChatStore.Tables.{put_row, delete_row}
use sentinelmesh.ChatStore.Cursors.{StoredMessage, ChatDeliveryState, list_messages}

pub data ChatConversationKind : Type 0 where
  public dm circle : ChatConversationKind

pub record StoredConversation : Type 0 where
  pub id : String
  pub kind : ChatConversationKind
  pub title : String
  pub muted : Bool
  pub last_activity_at : ℕ
  pub participants : Option (List String)
  pub group_id : Option String
  pub relay_url : Option String

pub record StoredSyncState : Type 0 where
  pub id : String
  pub since : ℕ
  pub eose : Bool

pub record StoredReadState : Type 0 where
  pub conversation_id : String
  pub last_read_at : ℕ
  pub unread : ℕ

pub record SeenWrap : Type 0 where
  pub id : String
  pub seen_at : ℕ

-- A value that is null is `none`.
pub record Preference : Type 0 where
  pub key : String
  pub content : Option Json

-- The object stores; of the one for keys, the row of the device key.
pub record ChatDb : Type 0 where
  pub conversations : List StoredConversation
  pub messages : List StoredMessage
  pub gift_wraps : List SeenWrap
  pub sync_state : List StoredSyncState
  pub read_state : List StoredReadState
  pub preferences : List Preference
  pub encryption_key : Option CryptoKey

-- A decryption that fails, and a text that is not base64, give `none`.
pub record Cipher : Type 0 where
  pub btoa : List ℕ → String
  pub atob : String → Option (List ℕ)
  pub encode_text : String → List ℕ
  pub decode_text : List ℕ → String
  pub encrypt : CryptoKey → List ℕ → List ℕ → List ℕ
  pub decrypt : CryptoKey → List ℕ → List ℕ → Option (List ℕ)

-- With the key that `generateKey` would give.
unfoldable pub get_or_create_encryption_key : CryptoKey → ChatDb → CryptoKey × ChatDb
get_or_create_encryption_key generated db = elim db.encryption_key [
  | some key ↦ (key, db)
  | none ↦ (generated, record db { encryption_key = some generated })
]

unfoldable pub encode : Cipher → List ℕ → List ℕ → String
encode c iv sent = c.btoa (iv ++ sent)

-- The vector and the rest.
unfoldable pub decode : Cipher → String → Option (List ℕ × List ℕ)
decode c b64 =
    and_then (c.atob b64)
      (λ bytes. if ltb (length bytes) 28 then none else some (take 12 bytes, drop 12 bytes))

unfoldable pub encrypt_local_plaintext :
    Cipher → CryptoKey → List ℕ → String → ChatDb → String × ChatDb
encrypt_local_plaintext c generated iv plaintext db =
    let (key, db') = get_or_create_encryption_key generated db in
    (encode c iv (c.encrypt key iv (c.encode_text plaintext)), db')

unfoldable pub decrypt_local_plaintext :
    Cipher → CryptoKey → String → ChatDb → Option String × ChatDb
decrypt_local_plaintext c generated ciphertext db =
    let (key, db') = get_or_create_encryption_key generated db in
    (
      and_then (decode c ciphertext)
          (λ (iv, sent). and_then (c.decrypt key iv sent) (λ plain. some (c.decode_text plain))),
      db',
    )

unfoldable pub put_conversation : StoredConversation → ChatDb → ChatDb
put_conversation conversation db = record db {
  conversations = put_row (λ c. c.id) conversation db.conversations;
}

unfoldable pub list_conversations : ChatDb → List StoredConversation
list_conversations db = db.conversations

unfoldable pub put_message : StoredMessage → ChatDb → ChatDb
put_message message db = record db { messages = put_row (λ m. m.id) message db.messages }

pub record PublicChannelMessage : Type 0 where
  pub id : String
  pub channel_id : String
  pub sender_pubkey : String
  pub created_at : ℕ
  pub content : String

abbrev pub stored_message : PublicChannelMessage → StoredMessage
stored_message message = record {
  id = message.id;
  conversation_id = message.channel_id;
  sender_pubkey = message.sender_pubkey;
  created_at = message.created_at;
  kind = 9;
  ciphertext = message.content;
  delivery_state = ChatDeliveryState.delivered;
}

unfoldable pub put_channel_message : PublicChannelMessage → ChatDb → ChatDb
put_channel_message message db = put_message (stored_message message) db

abbrev pub channel_message : StoredMessage → PublicChannelMessage
channel_message message = record {
  id = message.id;
  channel_id = message.conversation_id;
  sender_pubkey = message.sender_pubkey;
  created_at = message.created_at;
  content = message.ciphertext;
}

-- On the cursor's fuel.
unfoldable pub list_channel_messages : ℕ → String → ChatDb → Option (List PublicChannelMessage)
list_channel_messages fuel channel_id db =
    and_then (list_messages fuel db.messages channel_id none none)
      (λ stored. some (map channel_message stored))

unfoldable pub has_gift_wrap : String → ChatDb → Bool
has_gift_wrap outer_id db = elim (find_by (λ w. w.id) outer_id db.gift_wraps) [
  | none ↦ false
  | some row ↦ true
]

unfoldable pub mark_gift_wrap_seen : ℕ → String → ChatDb → Bool × ChatDb
mark_gift_wrap_seen now outer_id db = elim (find_by (λ w. w.id) outer_id db.gift_wraps) [
  | some existing ↦ (false, db)
  | none ↦ (
    true,
    record db {
      gift_wraps = put_row (λ w. w.id) (record { id = outer_id; seen_at = now }) db.gift_wraps;
    },
  )
]

unfoldable pub put_sync_state : StoredSyncState → ChatDb → ChatDb
put_sync_state state db = record db { sync_state = put_row (λ s. s.id) state db.sync_state }

unfoldable pub get_sync_state : String → ChatDb → Option StoredSyncState
get_sync_state id db = find_by (λ s. s.id) id db.sync_state

unfoldable pub put_read_state : StoredReadState → ChatDb → ChatDb
put_read_state state db = record db {
  read_state = put_row (λ s. s.conversation_id) state db.read_state;
}

unfoldable pub get_read_state : String → ChatDb → Option StoredReadState
get_read_state conversation_id db = find_by (λ s. s.conversation_id) conversation_id db.read_state

unfoldable pub set_preference : String → Option Json → ChatDb → ChatDb
set_preference key content db = record db {
  preferences = put_row (λ p. p.key) (record { key = key; content = content }) db.preferences;
}

unfoldable pub get_preference : String → ChatDb → Option Json
get_preference key db = and_then (find_by (λ p. p.key) key db.preferences) (λ row. row.content)

unfoldable pub delete_conversation : String → ChatDb → ChatDb
delete_conversation conversation_id db = record db {
  conversations = delete_row (λ c. c.id) conversation_id db.conversations;
  read_state = delete_row (λ s. s.conversation_id) conversation_id db.read_state;
}
