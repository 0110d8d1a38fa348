-- ===== src/Nip29/Tests.antt =====
-- Runs of the channel messages, and the theorems at concrete messages.
use sentinelmesh.Common.{
  utf16_length, all_lowercase_hex, escaped_all, ◌≤◌, String, Bool, true, [], ◌∷◌, ◌==◌, ◌≡◌, refl,
  some, inl, inr, arith,
}
use sentinelmesh.Validation.{
  NostrEvent, event_size_bytes, elements_length, tags_length, digits, is_lowercase_hex64,
  within_event_bounds, single_tag, single_tag_from, valid_message_content,
}
use sentinelmesh.Validation.Tags.{single_tag-IsLone}
use sentinelmesh.Nip29.{
  EventTemplate, ChannelMessage, create_channel_message, validate_channel_message,
  sign_channel_message,
}
use sentinelmesh.Nip29.RoundTrip.{created-validates}

abbrev alice : String
alice = "00000000000000000000000000000000000000000000000000000000000000aa"

abbrev event_of : EventTemplate → NostrEvent
event_of t = record {
  id = "e1";
  pubkey = alice;
  created_at = t.created_at;
  kind = t.kind;
  tags = t.tags;
  content = t.content;
}

abbrev accept_all : NostrEvent → Bool
accept_all event = true

abbrev hello : ChannelMessage
hello = record {
  group_id = "g";
  template = record {
    kind = 9;
    created_at = 1000;
    tags = ("h" ∷ "g" ∷ []) ∷ [];
    content = "hello";
  };
}

hello_created : create_channel_message 1000 "g" "hello" ≡ inr hello
unfolding create_channel_message valid_message_content utf16_length
hello_created = refl

empty_refused : create_channel_message 1000 "g" "" ≡ inl "invalid message content"
unfolding create_channel_message valid_message_content utf16_length
empty_refused = refl

hello_size : event_size_bytes (event_of hello.template) ≡ 97
unfolding event_size_bytes tags_length elements_length digits escaped_all
hello_size = refl

alice_hex : is_lowercase_hex64 alice ≡ true
unfolding is_lowercase_hex64 all_lowercase_hex utf16_length
alice_hex = refl

short : utf16_length "g" ≤ 256
unfolding utf16_length
short = ground arith

created-validates_example :
    validate_channel_message accept_all (sign_channel_message event_of hello) "g" 1060
    ≡ ("g" == "g")
created-validates_example =
    created-validates accept_all event_of (λ t. ((refl, refl, refl, refl, alice_hex), refl)) 1000
      1060 "g" "g" "hello" hello hello_created short (ground arith) (ground arith)

hello_valid : validate_channel_message accept_all (event_of hello.template) "g" 1060 ≡ true
unfolding validate_channel_message within_event_bounds single_tag single_tag_from is_lowercase_hex64
    all_lowercase_hex utf16_length event_size_bytes tags_length elements_length digits escaped_all
    valid_message_content
hello_valid = refl

-- A tag that stands twice, first without a value.
abbrev doubled : NostrEvent
doubled = record {
  id = "e2";
  pubkey = alice;
  created_at = 1000;
  kind = 9;
  tags = ("h" ∷ []) ∷ ("h" ∷ "g" ∷ []) ∷ [];
  content = "x";
}

doubled_accepted : single_tag doubled "h" ≡ some "g"
doubled_accepted = (single_tag-IsLone doubled "g" "h").1 (refl, refl)
