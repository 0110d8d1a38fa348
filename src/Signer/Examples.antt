-- ===== src/Signer/Examples.antt =====
-- A connection address that is accepted, and the signer that the chat uses.
use sentinelmesh.Common.{
  String, [], ◌∷◌, none, some, ◌⊎◌, inl, inr, ◌≡◌, refl, utf16_length, starts_with,
  all_lowercase_hex, to_lower, if◌then◌else◌, ◌==◌,
}
use sentinelmesh.Common.Sets
use sentinelmesh.Validation.{NostrEvent, is_lowercase_hex64}
use sentinelmesh.Nip29.{EventTemplate}
use sentinelmesh.Signer
use sentinelmesh.Signer.{World, identity_of}
use sentinelmesh.Signer.Pointer.{
  Url, BunkerPointer, parse_pointer, pointer_of, with_relays, check_parameters, check_relays, hrefs,
  has_unsupported,
}
use sentinelmesh.Signer.Capabilities.{
  BunkerSession, Environment, get_nostr_signer, signer_for, bunker_nostr_signer,
}

abbrev key : String
key = "aaaaaaaaaaaaaaaaaaaaaaaaaaaaaaaaaaaaaaaaaaaaaaaaaaaaaaaaaaaaaaaa"

abbrev relay : Url
relay = record {
  href = "wss://relay.example/";
  protocol = "wss:";
  username = "";
  password = "";
  hostname = "relay.example";
  port = "";
  pathname = "/";
  hash = "";
  parameters = [];
}

abbrev address : Url
address = record {
  href = "bunker://a?relay=wss://relay.example";
  protocol = "bunker:";
  username = "";
  password = "";
  hostname = key;
  port = "";
  pathname = "";
  hash = "";
  parameters = ("relay", "wss://relay.example") ∷ ("secret", "s") ∷ [];
}

abbrev parse_url : String → String ⊎ Url
parse_url input = if input == "bunker://a?relay=wss://relay.example" then inr address else inr relay

abbrev pointer : BunkerPointer
pointer = record { pubkey = key; relays = "wss://relay.example/" ∷ []; secret = some "s" }

parsed : parse_pointer parse_url "bunker://a?relay=wss://relay.example" ≡ inr pointer
unfolding parse_pointer pointer_of with_relays check_parameters check_relays hrefs has_unsupported
    Sets.of_list Sets.add utf16_length starts_with is_lowercase_hex64 all_lowercase_hex to_lower
parsed = refl

refused : parse_pointer parse_url "https://relay.example" ≡ inl "Enter a bunker:// connection URI"
unfolding parse_pointer utf16_length starts_with
refused = refl

abbrev signed : EventTemplate → NostrEvent
signed t = record {
  id = "id";
  pubkey = key;
  created_at = t.created_at;
  kind = t.kind;
  tags = t.tags;
  content = t.content;
}

abbrev session : BunkerSession
session = record {
  get_public_key = inr key;
  sign_event = λ t. inr (signed t);
  nip44 = record { encrypt = λ peer text. inr text; decrypt = λ peer text. inr text };
}

abbrev environment : Environment
environment = record {
  tools = record {
    get_public_key = λ sk. key;
    finalize_event = λ t sk. signed t;
    conversation_key = λ sk peer. inr sk;
    encrypt = λ text k. inr text;
    decrypt = λ text k. inr text;
  };
  keypair = record { secret_key = 1 ∷ []; public_key = key };
  extension = none;
  sessions = λ i. session;
}

abbrev world : World
world = record {
  identity = identity_of Signer.bunker key Signer.ready;
  remote = some (record { session = 3; generation = 4 });
  generation = 4;
  stored = none;
  next_session = 4;
  approvals = λ s. none;
  tasks = [];
  returned = [];
  thrown = [];
}

offline_bunker :
    get_nostr_signer environment (record world { remote = none }) ≡ inl "Remote signer is offline"
unfolding get_nostr_signer signer_for bunker_nostr_signer
offline_bunker = refl
