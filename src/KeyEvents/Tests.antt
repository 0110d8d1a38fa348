-- ===== src/KeyEvents/Tests.antt =====
-- A key that is sent from one device to another, and instances of the theorems.
use sentinelmesh.Common.{
  ℕ, String, true, false, length, eqb, ◌==◌, ◌&&◌, if◌then◌else◌, List, [], ◌∷◌, ◌++◌, none, some,
  ◌≡◌, refl, ◌⊎◌, inl, inr, arith, decimal_on, digit, to_lower, all_lowercase_hex, utf16_length,
}
use sentinelmesh.Validation.{NostrEvent, is_lowercase_hex64}
use sentinelmesh.Vault.{
  CryptoKey, VaultPayload, Random, get_or_create_wrap_key, load_vault, open_record, read_plain,
  decode_vault_payload, decode_circles,
}
use sentinelmesh.Vault.Circles.{with_key, load_vault_circle_key, find_key}
use sentinelmesh.Vault.RoundTrip.{IsCarried}
use sentinelmesh.CircleKeys.{KeyStore, KeyBrowser}
use sentinelmesh.Backup.{NostrKeypair}
use sentinelmesh.KeyEvents.{
  KeyServices, CircleKeyPackage, key_epoch_of, lone_tag, create_nip44_circle_key_event,
  unwrap_nip44_circle_key,
}
use sentinelmesh.KeyEvents.Bound.{IsEnvelope, IsPackage}
use sentinelmesh.KeyEvents.Outcomes.{IsSaved, unwrap_nip44_circle_key_cases}
use sentinelmesh.KeyEvents.Exchange.{
  parsed_package, finalized, IsExchange, unwrap_nip44_circle_key-created,
}

abbrev eight : List ℕ
eight = 7 ∷ 7 ∷ 7 ∷ 7 ∷ 7 ∷ 7 ∷ 7 ∷ 7 ∷ []

abbrev four : List ℕ
four = 7 ∷ 7 ∷ 7 ∷ 7 ∷ []

abbrev raw_key : List ℕ
raw_key = eight ++ (eight ++ (eight ++ eight))

abbrev wrap_key : CryptoKey
wrap_key = record { raw = 9 ∷ []; extractable = false }

abbrev live_key : CryptoKey
live_key = record { raw = raw_key; extractable = false }

-- A browser for two payloads, told apart by the length of their ciphertexts: an old one without circles
-- and one with the key of the circle "home" at epoch 12.
abbrev keys : KeyBrowser
keys = record {
  browser = record {
    btoa = λ bs. "key";
    atob = λ s. some raw_key;
    stringify = λ p. "";
    parse = λ s. some (record {
      identity_sk = "key";
      circles =
          some (
            if s == "old" then [] else (record { id = "home"; key = "key"; epoch = some 12 }) ∷ []);
    });
    encode_text = λ s. [];
    decode_text = λ bs. if eqb (length bs) 0 then "" else "old";
    encrypt = λ k i a p. eight ++ eight;
    decrypt = λ k i a c. some (if eqb (length c) 16 then [] else 1 ∷ []);
    sha256 = λ bs. bs;
    public_key = λ sk. "";
  };
  import_key = λ raw extractable. inr (record { raw = raw; extractable = extractable });
}

abbrev owner_pubkey : String
owner_pubkey = "aaaaaaaaaaaaaaaaaaaaaaaaaaaaaaaaaaaaaaaaaaaaaaaaaaaaaaaaaaaaaaaa"

abbrev member_pubkey : String
member_pubkey = "bbbbbbbbbbbbbbbbbbbbbbbbbbbbbbbbbbbbbbbbbbbbbbbbbbbbbbbbbbbbbbbb"

abbrev owner : NostrKeypair
owner = record { public_key = owner_pubkey; secret_key = 1 ∷ [] }

abbrev member : NostrKeypair
member = record { public_key = member_pubkey; secret_key = 2 ∷ [] }

abbrev package_at : CircleKeyPackage
package_at = record {
  version = 2;
  package_type = "sentinelmesh-circle-key-v2";
  circle_id = "home";
  key_epoch = 12;
  algorithm = "AES-256-GCM";
  key = "key";
  issued_at = 100;
}

abbrev services : KeyServices
services = record {
  keys = keys;
  verify = λ event. true;
  finalize = λ t sk. finalized "id" owner_pubkey t;
  conversation_key = λ sk pk. inr (3 ∷ []);
  nip44_encrypt = λ s k. "sealed";
  nip44_decrypt = λ s k. some "package";
  stringify_package = λ p. "package";
  parse_package = λ s. some (parsed_package package_at);
}

abbrev random : Random
random = record { wrap_key = wrap_key; iv = eight ++ four }

abbrev blob : List ℕ
blob = eight ++ (eight ++ (eight ++ four))

abbrev owner_store : KeyStore
owner_store = record {
  circle_keys = λ c e. none;
  bare_keys = λ c. none;
  local_storage = λ c. none;
  identity = record {
    identity_wrap_key = some wrap_key;
    nostr_sk = some (record { version = 2; blob = blob });
    vault_meta = none;
    scoped_home_location = none;
  };
}

abbrev member_store : KeyStore
member_store = record owner_store {
  identity = record (owner_store.identity) {
    nostr_sk = some (record { version = 2; blob = raw_key });
  };
}

abbrev member_vault : VaultPayload
member_vault = record { identity_sk = raw_key; circles = [] }

member_loads : load_vault keys.browser member_store.identity ≡ some member_vault
unfolding load_vault open_record read_plain decode_vault_payload decode_circles
member_loads = refl

member-IsCarried :
    IsCarried keys.browser wrap_key
      (eight ++ four)
      (record member_vault { circles = with_key "home" raw_key 12 [] })
member-IsCarried = record {
  vector = refl;
  tagged = omega arith;
  decrypts = refl;
  decodes = refl;
  parses = refl;
  secret = refl;
  keys = (refl, tt);
}

in_vault : load_vault_circle_key keys.browser "home" (some 12) owner_store.identity ≡ some raw_key
unfolding load_vault_circle_key find_key load_vault open_record read_plain decode_vault_payload
    decode_circles
in_vault = refl

lower : to_lower owner_pubkey ≡ owner_pubkey
unfolding to_lower
lower = refl

home-IsExchange : IsExchange services owner member 100 "home" 12 raw_key (3 ∷ [])
unfolding is_lowercase_hex64 all_lowercase_hex utf16_length to_lower
home-IsExchange = record {
  event_id = "id";
  owner_hex = refl;
  owner_lower = refl;
  member_hex = refl;
  safe = omega arith;
  positive = omega arith;
  derived = refl;
  derived_back = refl;
  decrypts = refl;
  parses = refl;
  decodes = refl;
  long = refl;
  live = live_key;
  is_key = refl;
  signs = refl;
  verifies = refl;
}

abbrev sent : NostrEvent
sent = record {
  id = "id";
  pubkey = owner_pubkey;
  created_at = 100;
  kind = 30079;
  tags =
      ("d" ∷ "sentinelmesh-circle-key-v2" ∷ [])
      ∷ ("circle" ∷ "home" ∷ [])
      ∷ ("epoch" ∷ "12" ∷ [])
      ∷ ("p" ∷ member_pubkey ∷ [])
      ∷ [];
  content = "sealed";
}

is_sent :
    create_nip44_circle_key_event services owner 100 "home" member_pubkey 12 owner_store ≡ inr sent
unfolding create_nip44_circle_key_event load_vault_circle_key find_key load_vault open_record
    read_plain decode_vault_payload decode_circles is_lowercase_hex64 all_lowercase_hex utf16_length
    to_lower decimal_on digit
is_sent = refl

-- A second circle tag makes the event say nothing.
refused :
    key_epoch_of services member "home" owner_pubkey
      (record sent { tags = ("circle" ∷ "home" ∷ []) ∷ sent.tags })
    ≡ inl "Circle key envelope is not bound to this circle and recipient"
unfolding key_epoch_of lone_tag is_lowercase_hex64 all_lowercase_hex utf16_length to_lower
refused = refl

unwrap_nip44_circle_key_cases_example :
    let r = unwrap_nip44_circle_key services member random "home" owner_pubkey sent member_store in
    ((message : String) × (r ≡ (inl message, member_store)))
    ⊎ ((key_epoch : ℕ) × (shared raw : List ℕ) × (r.0 ≡ inr key_epoch)
        × IsEnvelope services member "home" owner_pubkey sent key_epoch
        × (services.conversation_key member.secret_key owner_pubkey ≡ inr shared)
        × IsPackage services shared "home" sent.content key_epoch raw
        × IsSaved services random "home" key_epoch raw member_store r.1)
unwrap_nip44_circle_key_cases_example =
    unwrap_nip44_circle_key_cases services member random "home" owner_pubkey sent member_store

unwrap_nip44_circle_key-created_example :
    (event : NostrEvent) × (create_nip44_circle_key_event services owner 100 "home" member_pubkey 12
        owner_store
      ≡ inr event)
    × (let r =
          unwrap_nip44_circle_key services member random "home" owner_pubkey event member_store in
        (r.0 ≡ inr 12)
        × IsSaved services random "home" 12 raw_key member_store r.1
        × ((j : String) (e : ℕ)
            → load_vault_circle_key keys.browser j (some e) r.1.identity ≡ (
                if "home" == j && eqb 12 e
                then some raw_key
                else load_vault_circle_key keys.browser j (some e) member_store.identity)))
unfolding get_or_create_wrap_key
unwrap_nip44_circle_key-created_example =
    unwrap_nip44_circle_key-created services owner member 100 "home" 12 raw_key (3 ∷ []) random
      member_vault owner_store member_store home-IsExchange in_vault member_loads member-IsCarried
