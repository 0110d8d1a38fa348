-- ===== src/ChatStore/Cursors.antt =====
-- A page of messages, read through a cursor on the index `by_conversation`
-- (apps/pwa/src/services/chat/chatStore.ts: listMessages). The cursor is the rows of the range that it
-- has still to show; in the direction `prev` it shows the greatest of them by the index key.
use sentinelmesh.Common.{
  ℕ, zero, suc, String, Bool, ◌&&◌, not, List, [], ◌∷◌, ◌++◌, Option, none, some, ◌==◌, eqb, ltb,
  leb, str_lt, if◌then◌else◌, filter, length, get_or,
}

pub data ChatDeliveryState : Type 0 where
  pending sent delivered failed : ChatDeliveryState

pub record StoredMessage : Type 0 where
  pub id : String
  pub conversation_id : String
  pub sender_pubkey : String
  pub created_at : ℕ
  pub kind : ℕ
  pub ciphertext : String
  pub delivery_state : ChatDeliveryState

-- A key of the index: an array of conversation, time and id.
pub record IndexKey : Type 0 where
  pub conversation_id : String
  pub created_at : ℕ
  pub id : String

abbrev pub index_key : StoredMessage → IndexKey
index_key m = record { conversation_id = m.conversation_id; created_at = m.created_at; id = m.id }

-- Arrays are compared element by element.
abbrev pub key_lt : IndexKey → IndexKey → Bool
key_lt a b =
    if a.conversation_id == b.conversation_id
    then if eqb a.created_at b.created_at then str_lt a.id b.id else ltb a.created_at b.created_at
    else str_lt a.conversation_id b.conversation_id

abbrev pub greatest_time : ℕ
greatest_time = 9007199254740991

-- The bounds of the range; no time is below 0, which stands for the least safe integer.
abbrev pub lower_bound : String → IndexKey
lower_bound conversation_id = record { conversation_id = conversation_id; created_at = 0; id = "" }

abbrev pub upper_bound : String → ℕ → IndexKey
upper_bound conversation_id before = record {
  conversation_id = conversation_id;
  created_at = before;
  id = "\u{ffff}";
}

unfoldable pub in_range : String → ℕ → StoredMessage → Bool
in_range conversation_id before m =
    not (key_lt (index_key m) (lower_bound conversation_id))
    && not (key_lt (upper_bound conversation_id before) (index_key m))

unfoldable pub is_before : StoredMessage → StoredMessage → Bool
is_before a b = key_lt (index_key a) (index_key b)

-- The greatest row by the index key.
unfoldable pub greatest : List StoredMessage → Option StoredMessage
greatest [] = none
greatest (x ∷ xs) = elim (greatest xs) [
  | none ↦ some x
  | some m ↦ some (if is_before x m then m else x)
]

-- `openCursor` and `continue`: the rows that are still to be shown.
abbrev pub open_cursor : List StoredMessage → String → ℕ → List StoredMessage
open_cursor rows conversation_id before = filter (in_range conversation_id before) rows

abbrev pub continue : StoredMessage → List StoredMessage → List StoredMessage
continue m ahead = filter (λ x. is_before x m) ahead

-- The calls of `onsuccess`, on fuel; `none` where it ends.
unfoldable pub read_on :
    ℕ → ℕ → List StoredMessage → List StoredMessage → Option (List StoredMessage)
read_on zero limit ahead results = none
read_on (suc fuel) limit ahead results = elim (greatest ahead) [
  | none ↦ some results
  | some m ↦
      let rest = read_on fuel limit (continue m ahead) (results ++ (m ∷ [])) in
      if leb limit (length results) then some results else rest
]

unfoldable pub list_messages :
    ℕ → List StoredMessage → String → Option ℕ → Option ℕ → Option (List StoredMessage)
list_messages fuel rows conversation_id limit before =
    read_on fuel (get_or 200 limit) (open_cursor rows conversation_id (get_or greatest_time before))
      []
