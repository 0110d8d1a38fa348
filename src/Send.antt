-- ===== src/Send.antt =====
-- Sending encrypted messages (apps/pwa/src/services/chat/nip59.ts, nip17.ts and dmSend.ts). The
-- signer, nostr-tools and `JSON.stringify` are parameters that do not fail; `seal_time` and
-- `wrap_time` stand for the random times, and `finalize` for signing with a fresh one-time key.
pub mod Recipients
mod Tests
use sentinelmesh.Common.{
  ℕ, String, Bool, true, false, not, List, [], ◌∷◌, map, Option, none, some, ◌==◌, ltb, length,
  if◌then◌else◌, ◌⊎◌, inl, inr, to_lower, get_elem?, find, Dict, empty, put,
}
use sentinelmesh.Validation.{
  NostrEvent, is_named, is_lowercase_hex64, valid_message_content, max_room_participants,
}
use sentinelmesh.Nip29.{EventTemplate}
use sentinelmesh.Participants.{normalize_participants, direct_conversation_id, room_conversation_id}
use sentinelmesh.Inbox.{Rumor}

pub record Sender : Type 0 where
  pub pubkey : String
  pub now : ℕ
  pub seal_time : String → ℕ
  pub wrap_time : String → ℕ
  pub event_hash : Rumor → String
  pub stringify_rumor : Rumor → String
  pub stringify_seal : NostrEvent → String
  -- The recipient's key, then the text.
  pub encrypt : String → String → String
  pub encrypt_once : String → String → String
  pub sign_event : EventTemplate → NostrEvent
  pub finalize : EventTemplate → NostrEvent
  pub sha256 : String → String

unfoldable pub create_rumor : Sender → String → ℕ → List (List String) → String → Rumor
create_rumor sender sender_pubkey kind tags content =
    let bare : Rumor = record {
      pubkey = sender_pubkey;
      id = "";
      kind = kind;
      created_at = sender.now;
      tags = tags;
      content = content;
    } in
    record bare { id = sender.event_hash bare }

unfoldable pub create_seal : Sender → Rumor → String → NostrEvent
create_seal sender rumor recipient = sender.sign_event (record {
  kind = 13;
  created_at = sender.seal_time recipient;
  tags = [];
  content = sender.encrypt recipient (sender.stringify_rumor rumor);
})

unfoldable pub create_wrap : Sender → NostrEvent → String → NostrEvent
create_wrap sender seal recipient = sender.finalize (record {
  kind = 1059;
  created_at = sender.wrap_time recipient;
  tags = ("p" ∷ recipient ∷ []) ∷ [];
  content = sender.encrypt_once recipient (sender.stringify_seal seal);
})

unfoldable pub wrap_rumor : Sender → Rumor → List String → List NostrEvent
wrap_rumor sender rumor recipients =
    map (λ recipient. create_wrap sender (create_seal sender rumor recipient) recipient) recipients

-- The error that is thrown, or the wraps.
unfoldable pub create_direct_message : Sender → String → String → String ⊎ List NostrEvent
create_direct_message sender recipient_pubkey content =
    if not (valid_message_content content)
    then inl "invalid message content"
    else if not (is_lowercase_hex64 recipient_pubkey)
    then inl "invalid recipient public key"
    else if recipient_pubkey == to_lower sender.pubkey
    then inl "cannot message yourself"
    else inr (
        wrap_rumor sender
          (create_rumor sender sender.pubkey 14 (("p" ∷ to_lower recipient_pubkey ∷ []) ∷ [])
            content)
          (sender.pubkey ∷ to_lower recipient_pubkey ∷ []))

unfoldable pub create_group_message : Sender → List String → String → String ⊎ List NostrEvent
create_group_message sender recipients content =
    let participants = normalize_participants (sender.pubkey ∷ recipients) in
    if not (valid_message_content content)
    then inl "invalid message content"
    else if ltb max_room_participants (length participants)
    then inl "room has too many participants"
    else if ltb (length participants) 2
    then inl "room needs at least one other participant"
    else inr (
        wrap_rumor sender
          (create_rumor sender sender.pubkey 14 (map (λ p. "p" ∷ p ∷ []) participants) content)
          participants)

pub record SentMessage : Type 0 where
  pub wraps : List NostrEvent
  pub conversation_id : String
  pub participants : List String

abbrev with_wraps :
    (List NostrEvent → SentMessage) → String ⊎ List NostrEvent → String ⊎ SentMessage
with_wraps f (inl error) = inl error
with_wraps f (inr wraps) = inr (f wraps)

unfoldable pub send_direct_message : Sender → String → String → String ⊎ SentMessage
send_direct_message sender recipient_pubkey content =
    with_wraps
      (λ wraps. record {
        wraps = wraps;
        conversation_id = direct_conversation_id sender.sha256 sender.pubkey recipient_pubkey;
        participants = normalize_participants (sender.pubkey ∷ recipient_pubkey ∷ []);
      })
      (create_direct_message sender recipient_pubkey content)

unfoldable pub send_group_message : Sender → List String → String → String ⊎ SentMessage
send_group_message sender recipients content =
    let participants = normalize_participants (sender.pubkey ∷ recipients) in
    with_wraps
      (λ wraps. record {
        wraps = wraps;
        conversation_id = room_conversation_id sender.sha256 participants;
        participants = participants;
      })
      (create_group_message sender recipients content)

-- `wrap.tags.find(t => t[0] === 'p')?.[1]`, if it is not empty.
unfoldable pub recipient_of : NostrEvent → Option String
recipient_of wrap = elim (find (is_named "p") wrap.tags) [
  | none ↦ none
  | some tag ↦ elim (get_elem? tag 1) [ none ↦ none | some p ↦ if p == "" then none else some p ]
]

-- The loop of `wrapsByRecipient`, with the map so far.
unfoldable pub add_wraps : Dict NostrEvent → List NostrEvent → Dict NostrEvent
add_wraps m [] = m
add_wraps m (wrap ∷ wraps) = elim (recipient_of wrap) [
  | none ↦ add_wraps m wraps
  | some recipient ↦ add_wraps (put recipient wrap m) wraps
]

unfoldable pub wraps_by_recipient : List NostrEvent → Dict NostrEvent
wraps_by_recipient wraps = add_wraps empty wraps
