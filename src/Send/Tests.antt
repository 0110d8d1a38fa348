-- ===== src/Send/Tests.antt =====
-- Runs of sending, and the theorem at a concrete message.
use sentinelmesh.Common.{
  ◌≤◌, String, List, [], ◌∷◌, none, some, inl, inr, ◌≡◌, refl, length, if◌then◌else◌, str_lt,
  to_lower, all_lowercase_hex, utf16_length,
}
use sentinelmesh.Common.Sets
use sentinelmesh.Timeline.{sort, place, is_after}
use sentinelmesh.Validation.{NostrEvent, is_lowercase_hex64, valid_message_content}
use sentinelmesh.Nip29.{EventTemplate}
use sentinelmesh.Participants.{normalize_participants}
use sentinelmesh.Participants.Laws.{is_member}
use sentinelmesh.Send.{
  Sender, wrap_rumor, create_direct_message, create_group_message, wraps_by_recipient,
}
use sentinelmesh.Send.Recipients.{group_rumor, wrap_for, group_message-routed}

abbrev alice : String
alice = "00000000000000000000000000000000000000000000000000000000000000aa"

abbrev bob : String
bob = "00000000000000000000000000000000000000000000000000000000000000bb"

abbrev event_of : EventTemplate → NostrEvent
event_of t = record {
  id = "e1";
  pubkey = "one-time key";
  created_at = t.created_at;
  kind = t.kind;
  tags = t.tags;
  content = t.content;
}

abbrev sender : Sender
sender = record {
  pubkey = alice;
  now = 1000;
  seal_time = λ p. 900;
  wrap_time = λ p. 800;
  event_hash = λ r. "r1";
  stringify_rumor = λ r. r.content;
  stringify_seal = λ s. s.content;
  encrypt = λ key text. text;
  encrypt_once = λ key text. text;
  sign_event = event_of;
  finalize = event_of;
  sha256 = λ text. "digest";
}

abbrev event_of_keeps : (t : EventTemplate) → (event_of t).tags ≡ t.tags
event_of_keeps t = refl

abbrev wraps : List NostrEvent
wraps = wrap_rumor sender (group_rumor sender event_of_keeps (bob ∷ []) "hello") (alice ∷ bob ∷ [])

created : create_group_message sender (bob ∷ []) "hello" ≡ inr wraps
unfolding create_group_message normalize_participants to_lower is_lowercase_hex64 all_lowercase_hex
    utf16_length valid_message_content Sets.of_list sort place is_after str_lt
created = refl

to_self : create_direct_message sender alice "hello" ≡ inl "cannot message yourself"
unfolding create_direct_message to_lower is_lowercase_hex64 all_lowercase_hex utf16_length
    valid_message_content
to_self = refl

group_message-routed_example :
    let ps = normalize_participants (alice ∷ bob ∷ []) in
    (2 ≤ length ps)
    × (length ps ≤ 10)
    × ((k : String)
        → wraps_by_recipient wraps k ≡ (
            if is_member k (alice ∷ bob ∷ [])
            then some (
                wrap_for sender event_of_keeps
                  (group_rumor sender event_of_keeps (bob ∷ []) "hello")
                  k)
            else none))
group_message-routed_example =
    group_message-routed sender event_of_keeps (bob ∷ []) "hello" wraps created
