-- ===== src/Participants.antt =====
-- Who takes part in an encrypted conversation (apps/pwa/src/services/chat/conversationId.ts,
-- dmConversation.ts and circleChat.ts). `sha256` stands for the browser's digest, as hexadecimal
-- text, of a text in UTF-8.
pub mod Laws
mod Tests
use Prim.Native.String.{◌++◌}
use sentinelmesh.Common.{
  ℕ, String, Bool, true, false, ◌&&◌, not, List, [], ◌∷◌, map, filter, ◌==◌, leb, length, to_lower,
  text_prefix, get_or, ◌⊎◌, inl, inr, Option, none, some, if◌then◌else◌,
}
use sentinelmesh.Common.Sets
use sentinelmesh.Timeline
use sentinelmesh.Types.{MembershipState, active}
use sentinelmesh.Validation.{is_lowercase_hex64}

-- `sort()` on texts that are distinct.
abbrev pub sort_texts : List String → List String
sort_texts xs = Timeline.sort (λ x. x) (λ x. 0) xs

unfoldable pub normalize_participants : List String → List String
normalize_participants pubkeys =
    sort_texts (Sets.of_list (filter is_lowercase_hex64 (map to_lower pubkeys)))

-- `xs.join(',')`
unfoldable pub join : List String → String
join [] = ""
join (x ∷ []) = x
join (x ∷ y ∷ ys) = x ++ "," ++ join (y ∷ ys)

unfoldable pub participant_key : List String → String
participant_key pubkeys = "sentinelmesh:chat:v1:" ++ join (normalize_participants pubkeys)

unfoldable pub conversation_id_for : (String → String) → List String → String
conversation_id_for sha256 pubkeys = sha256 (participant_key pubkeys)

unfoldable pub channel_conversation_id : String → String → String
channel_conversation_id relay_url group_id =
    "sentinelmesh:chat:v1:channel:" ++ relay_url ++ ":" ++ group_id

unfoldable pub direct_conversation_id : (String → String) → String → String → String
direct_conversation_id sha256 a b = conversation_id_for sha256 (a ∷ b ∷ [])

unfoldable pub room_conversation_id : (String → String) → List String → String
room_conversation_id sha256 participants = conversation_id_for sha256 participants

unfoldable pub peer_participants : String → List String → List String
peer_participants my_pubkey others =
    filter (λ p. not (p == to_lower my_pubkey)) (normalize_participants others)

pub record DirectConversation : Type 0 where
  pub id : String
  pub participants : List String
  pub title : String

-- The error that is thrown, or the conversation.
unfoldable pub build_direct_conversation :
    (String → String) → String → String → Option String → String ⊎ DirectConversation
build_direct_conversation sha256 my_pubkey recipient_pubkey title =
    let participants = normalize_participants (my_pubkey ∷ recipient_pubkey ∷ []) in
    if not (is_lowercase_hex64 recipient_pubkey)
    then inl "invalid recipient public key"
    else inr (record {
      id = conversation_id_for sha256 participants;
      participants = participants;
      title = get_or (text_prefix 12 recipient_pubkey) title;
    })

pub record CircleChatMember : Type 0 where
  pub pubkey : String
  pub membership_state : Option MembershipState

abbrev pub is_pending : CircleChatMember → Bool
is_pending m = elim m.membership_state [
  | none ↦ false
  | some MembershipState.active ↦ false
  | some MembershipState.pending ↦ true
]

abbrev pub max_circle_chat_participants : ℕ
max_circle_chat_participants = 10

unfoldable pub circle_chat_participants : String → List CircleChatMember → List String
circle_chat_participants owner_pubkey members =
    let owner = to_lower owner_pubkey in
    let others =
      filter (λ p. not (p == owner))
        (map (λ m. to_lower m.pubkey) (filter (λ m. not (is_pending m)) members)) in
    normalize_participants (owner ∷ others)

unfoldable pub circle_chat_feasible : List String → Bool
circle_chat_feasible participants =
    leb 2 (length participants) && leb (length participants) max_circle_chat_participants
