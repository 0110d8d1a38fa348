-- ===== src/Inbox.antt =====
-- Received gift wraps: unwrapGiftWrap (apps/pwa/src/services/chat/nip59.ts), unwrapMessage (nip17.ts)
-- and processGiftWrap (inbox.ts). The signer's decryption, the two uses of `JSON.parse` and
-- nostr-tools' `getEventHash` are parameters that give `none` where they throw or where what they
-- return makes the code throw; reading the own public key and the digest do not fail. `isSeen` and
-- `markSeen` are those of one set of ids, as the caller has it (chatStore.ts: gift_wraps).
pub mod Laws
mod Tests
use sentinelmesh.Common.{
  ℕ, String, Bool, true, false, not, List, [], ◌∷◌, map, filter, ◌==◌, eqb, ltb, length, get_elem?,
  includes, Option, none, some, if◌then◌else◌, and_then, only_if,
}
use sentinelmesh.Common.Sets
use sentinelmesh.Validation.{
  NostrEvent, single_tag, is_named, is_lowercase_hex64, valid_message_content,
  max_room_participants,
}
use sentinelmesh.Participants.{normalize_participants, room_conversation_id}

pub record Rumor : Type 0 where
  pub pubkey : String
  pub id : String
  pub kind : ℕ
  pub created_at : ℕ
  pub tags : List (List String)
  pub content : String

-- The services that the inbox calls. `decrypt` takes the other side's key and the ciphertext.
pub record Services : Type 0 where
  pub my_pubkey : String
  pub verify : NostrEvent → Bool
  pub decrypt : String → String → Option String
  pub parse_seal : String → Option NostrEvent
  pub parse_rumor : String → Option Rumor
  pub event_hash : Rumor → Option String
  pub sha256 : String → String

pub record UnwrappedMessage : Type 0 where
  pub rumor : Rumor
  pub participants : List String

pub record ProcessedInboxMessage : Type 0 where
  pub conversation_id : String
  pub participants : List String
  pub sender_pubkey : String
  pub content : String
  pub created_at : ℕ
  pub rumor_id : String
  pub wrap_id : String

-- `singleTag(wrap, 'p') !== myPubkey`, negated.
abbrev pub is_for : String → NostrEvent → Bool
is_for pubkey wrap = elim (single_tag wrap "p") [ none ↦ false | some p ↦ p == pubkey ]

abbrev pub is_seal : Services → NostrEvent → Bool
is_seal services seal =
    if not (services.verify seal)
    then false
    else if not (eqb seal.kind 13)
    then false
    else eqb (length seal.tags) 0

-- The part of `unwrapGiftWrap` after the seal is decrypted.
unfoldable pub open_seal : Services → NostrEvent → Option Rumor
open_seal services seal = only_if (is_seal services seal) (
    and_then (services.decrypt seal.pubkey seal.content) (λ raw.
      and_then (services.parse_rumor raw) (λ rumor. only_if (is_lowercase_hex64 rumor.pubkey) (
        only_if (rumor.pubkey == seal.pubkey)
          (and_then (services.event_hash rumor) (λ id. some (record rumor { id = id })))))))

unfoldable pub unwrap_gift_wrap : Services → NostrEvent → Option Rumor
unwrap_gift_wrap services wrap = only_if (services.verify wrap) (
    only_if (eqb wrap.kind 1059) (
      only_if (is_for services.my_pubkey wrap) (
        and_then (services.decrypt wrap.pubkey wrap.content)
          (λ raw. and_then (services.parse_seal raw) (λ seal. open_seal services seal)))))

-- The values of the `p` tags, if each is a proper key.
unfoldable pub proper_keys : List (List String) → Option (List String)
proper_keys [] = some []
proper_keys (tag ∷ tags) =
    let rest = proper_keys tags in
    and_then (get_elem? tag 1)
      (λ p. only_if (is_lowercase_hex64 p) (and_then rest (λ ps. some (p ∷ ps))))

unfoldable pub participant_set : Rumor → Option (List String)
participant_set rumor = only_if (eqb rumor.kind 14) (
    only_if (not (ltb max_room_participants (length rumor.tags))) (
      and_then (proper_keys (filter (is_named "p") rumor.tags)) (λ others.
        only_if (not (eqb (length others) 0)) (
          only_if (eqb (length (Sets.of_list others)) (length others))
            (some (normalize_participants (rumor.pubkey ∷ others)))))))

unfoldable pub unwrap_message : Services → NostrEvent → Option UnwrappedMessage
unwrap_message services wrap = and_then (unwrap_gift_wrap services wrap) (λ rumor.
    only_if (valid_message_content rumor.content) (
      and_then (participant_set rumor) (λ participants.
        only_if (includes services.my_pubkey participants)
          (some (record { rumor = rumor; participants = participants })))))

abbrev pub processed : Services → NostrEvent → UnwrappedMessage → ProcessedInboxMessage
processed services wrap unwrapped = record {
  conversation_id = room_conversation_id services.sha256 unwrapped.participants;
  participants = unwrapped.participants;
  sender_pubkey = unwrapped.rumor.pubkey;
  content = unwrapped.rumor.content;
  created_at = unwrapped.rumor.created_at;
  rumor_id = unwrapped.rumor.id;
  wrap_id = wrap.id;
}

-- The ids of wraps seen before, then the message and the ids seen after.
unfoldable pub process_gift_wrap :
    Services → List String → NostrEvent → Option ProcessedInboxMessage × List String
process_gift_wrap services seen wrap =
    if not (eqb wrap.kind 1059)
    then (none, seen)
    else if includes wrap.id seen
    then (none, seen)
    else elim (unwrap_message services wrap) [
      | none ↦ (none, seen)
      | some unwrapped ↦ (some (processed services wrap unwrapped), Sets.add seen wrap.id)
    ]
