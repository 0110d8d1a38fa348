-- ===== src/Dm/Tests.antt =====
-- The theorems on the slice of dmSlice.ts at concrete inputs.
use sentinelmesh.Common.{List, [], ◌∷◌, arith, put}
use sentinelmesh.Dm.{
  DmConversation, DmConversationKind, DmMessage, DmState, DmAction, added, received, initial_state,
}
use sentinelmesh.Dm.Laws.{NoReset}

abbrev room : DmConversation
room = record {
  id = "r";
  kind = DmConversationKind.dm;
  title = "ada";
  participants = "ada" ∷ "bob" ∷ [];
}

abbrev renamed : DmConversation
renamed = record room { title = "mallory" }

abbrev hello : DmMessage
hello = record {
  id = "m";
  conversation_id = "r";
  sender_pubkey = "ada";
  created_at = 7;
  content = "hi";
}

abbrev actions : List DmAction
actions = received "r" hello ∷ added renamed ∷ []

abbrev open_room : DmState
open_room = record initial_state { conversations = put "r" room initial_state.conversations }

actions-NoReset : NoReset actions
actions-NoReset = (ground arith, (ground arith, tt))
