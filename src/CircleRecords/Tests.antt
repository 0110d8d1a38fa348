-- ===== src/CircleRecords/Tests.antt =====
-- A circle whose name is encrypted, with its key and without, and an instance of the theorem.
use sentinelmesh.Common.{
  ℕ, String, false, ◌&&◌, List, [], ◌∷◌, ◌++◌, none, some, ◌≡◌, refl, ◌⊎◌, inl, inr, ◌==◌, eqb,
  if◌then◌else◌, empty, to_lower, all_lowercase_hex, utf16_length,
}
use sentinelmesh.Types.{value, Circle, CircleMember}
use sentinelmesh.Validation.{is_lowercase_hex64}
use sentinelmesh.Vault.{CryptoKey, Random}
use sentinelmesh.CircleKeys.{KeyStore, load_circle_key}
use sentinelmesh.CircleLocation.{decode_b64}
use sentinelmesh.CircleRecords.{
  RawMember, RawCircleDetail, RecordServices, RecordRandom, circle_key, retry_key, circle_of,
  display_name, decrypt_string, to_circle_and_members, save_circle_owner_key, get_circle_owner_key,
}
use sentinelmesh.CircleRecords.Locked.{IsRead, records-IsRead}

abbrev key : CryptoKey
key = record { raw = 9 ∷ []; extractable = false }

abbrev random : Random
random = record { wrap_key = key; iv = [] }

abbrev seven : List ℕ
seven = 7 ∷ 7 ∷ 7 ∷ 7 ∷ 7 ∷ 7 ∷ 7 ∷ []

abbrev services : RecordServices
services = record {
  keys = record {
    keys = record {
      browser = record {
        btoa = λ bs. "";
        atob = λ s. some (seven ++ (seven ++ (seven ++ seven)));
        stringify = λ p. "";
        parse = λ s. none;
        encode_text = λ s. [];
        decode_text = λ bs. "Family";
        encrypt = λ k i a p. p;
        decrypt = λ k i a c. some c;
        sha256 = λ bs. bs;
        public_key = λ sk. "";
      };
      import_key = λ raw extractable. inl "DataError";
    };
    verify = λ event. false;
    finalize = λ t sk. record {
      id = "";
      pubkey = "";
      created_at = t.created_at;
      kind = t.kind;
      tags = t.tags;
      content = t.content;
    };
    conversation_key = λ sk pk. inr [];
    nip44_encrypt = λ s k. s;
    nip44_decrypt = λ s k. none;
    stringify_package = λ p. "";
    parse_package = λ s. none;
  };
  keypair = record { public_key = ""; secret_key = [] };
  owner_keys = empty;
  parse_label = λ s. some (record { pubkey = some "ada"; name = some s });
}

abbrev draws : RecordRandom
draws = record { first = random; unwrap = random; second = random }

abbrev ada : RawMember
ada = record {
  circle_id = "home";
  member_token = none;
  member_label_ciphertext = value "label";
  alert_radius_km = none;
  alert_severity = none;
  membership_state = none;
  accepted_at = none;
  key_wrap_epoch = none;
  joined_at = "2026";
}

abbrev detail : RawCircleDetail
detail = record {
  id = "home";
  name = none;
  name_ciphertext = value "name";
  name_version = some 1;
  key_epoch = some 2;
  location_protocol_version = none;
  rekey_required = none;
  membership_revision = none;
  self_token = none;
  created_at = "2026";
  is_owner = none;
  members = ada ∷ [];
  my_key_wrap = none;
}

abbrev store : KeyStore
store = record {
  circle_keys = λ c e. if c == "home" && eqb e 2 then some key else none;
  bare_keys = λ c. none;
  local_storage = λ c. none;
  identity = record {
    identity_wrap_key = none;
    nostr_sk = none;
    vault_meta = none;
    scoped_home_location = none;
  };
}

with_key : (circle_of services detail (some key)).name ≡ value "Family"
unfolding circle_of display_name decrypt_string decode_b64
with_key = refl

without_key : (circle_of services detail none).name ≡ value "(unnamed)"
unfolding circle_of display_name
without_key = refl

found : circle_key services draws detail store ≡ (inr (some key), store)
unfolding circle_key retry_key load_circle_key
found = refl

-- A text that is no public key is not taken as the owner's.
no_owner : get_circle_owner_key "home" (save_circle_owner_key "home" "Ada" empty) ≡ none
unfolding get_circle_owner_key save_circle_owner_key is_lowercase_hex64 all_lowercase_hex to_lower
    utf16_length
no_owner = refl

records-IsRead_example :
    let r = to_circle_and_members services draws detail store in
    ((error : String) × (r.0 ≡ inl error))
    ⊎ ((circle : Circle) × (members : List CircleMember) × (r.0 ≡ inr (circle, members))
        × IsRead services detail r.1 circle members)
records-IsRead_example = records-IsRead services draws detail store
