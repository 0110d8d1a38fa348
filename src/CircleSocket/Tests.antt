-- ===== src/CircleSocket/Tests.antt =====
-- An envelope that is accepted, and instances of the theorems on envelopes and locations.
use sentinelmesh.Common.{
  ℕ, true, false, List, [], ◌∷◌, none, some, inr, ◌≡◌, refl, ◌==◌, if◌then◌else◌, decimal_on, digit,
  number_from, all_digits, all_nonce, utf16_length, to_lower, empty,
}
use sentinelmesh.Common.Sets
use sentinelmesh.Types.{double}
use sentinelmesh.Circles
use sentinelmesh.Circles.{exact}
use sentinelmesh.Validation.{NostrEvent}
use sentinelmesh.Vault.{CryptoKey, Random}
use sentinelmesh.CircleKeys.{KeyBrowser}
use sentinelmesh.CircleLocation.{
  LocationServices, LocationJson, VerifiedCircleLocation, decode_b64, location_aad,
  verified_location, decrypt_circle_location, exact_location_tags, known_names, last_named,
  valid_coordinate_content, content_of, precision_of,
}
use sentinelmesh.CircleLocation.Accepted.{IsAuthentic, decrypt_circle_location-IsAuthentic}
use sentinelmesh.CircleSocket.{Live, Roster, CircleLocationEnvelope, handle_envelope}
use sentinelmesh.CircleSocket.Shown.{IsStep, handle_envelope-IsStep}
use sentinelmesh.CircleSocket.Newest.{receive_all, ShowsNewest, receive_all-newest}

abbrev key : CryptoKey
key = record { raw = 9 ∷ []; extractable = false }

-- 28 bytes.
abbrev bytes : List ℕ
bytes =
    1 ∷ 1 ∷ 1 ∷ 1 ∷ 1 ∷ 1 ∷ 1 ∷ 1 ∷ 1 ∷ 1 ∷ 1 ∷ 1 ∷ 2 ∷ 2 ∷ 2 ∷ 2 ∷ 2 ∷ 2 ∷ 2 ∷ 2 ∷ 2 ∷ 2 ∷ 2 ∷ 2
    ∷ 2 ∷ 2 ∷ 2 ∷ 2 ∷ []

abbrev ada : NostrEvent
ada = record {
  id = "e1";
  pubkey = "ada";
  created_at = 1000;
  kind = 30080;
  tags =
      ("circle" ∷ "home" ∷ [])
      ∷ ("epoch" ∷ "12" ∷ [])
      ∷ ("expires" ∷ "1200" ∷ [])
      ∷ ("nonce" ∷ "0f8fad5b-d9cb-469f-a165-70867728950e" ∷ [])
      ∷ [];
  content = "{}";
}

abbrev place_json : LocationJson
place_json = record {
  keys = "accuracy_m,captured_at,lat,lng,precision";
  lat = some (double 0);
  lng = some (double 0);
  accuracy_m = some (double 0);
  captured_at = some 1000;
  precision = some "exact";
}

abbrev browser : KeyBrowser
browser = record {
  browser = record {
    btoa = λ bs. "";
    atob = λ s. some bytes;
    stringify = λ p. "";
    parse = λ s. none;
    encode_text = λ s. [];
    decode_text = λ bs. "";
    encrypt = λ k i a p. p;
    decrypt = λ k i a c. some c;
    sha256 = λ bs. bs;
    public_key = λ sk. "";
  };
  import_key = λ raw extractable. inr (record { raw = raw; extractable = extractable });
}

abbrev services : LocationServices
services = record {
  browser = browser.browser;
  verify = λ e. true;
  parse_event = λ s. some ada;
  parse_content = λ s. some place_json;
}

abbrev location : VerifiedCircleLocation
location = record {
  content = record {
    lat = double 0;
    lng = double 0;
    accuracy_m = double 0;
    captured_at = 1000;
    precision = exact;
  };
  pubkey = "ada";
  event_id = "e1";
  expires_at = 1200;
}

decrypted : decrypt_circle_location services key "b64" "home" 12 ("ada" ∷ []) 1100 ≡ some location
unfolding decrypt_circle_location decode_b64 verified_location exact_location_tags known_names
    last_named valid_coordinate_content content_of precision_of decimal_on digit number_from
    all_digits all_nonce utf16_length to_lower Sets.of_list Sets.add
decrypted = refl

-- The same envelope, after it expired.
expired : decrypt_circle_location services key "b64" "home" 12 ("ada" ∷ []) 1200 ≡ none
unfolding decrypt_circle_location decode_b64 verified_location exact_location_tags known_names
    last_named valid_coordinate_content content_of precision_of decimal_on digit number_from
    all_digits all_nonce utf16_length to_lower Sets.of_list Sets.add
expired = refl

decrypt_circle_location-IsAuthentic_example :
    (iv : List ℕ) × (sealed plaintext : List ℕ) × (event : NostrEvent) × (decode_b64 browser.browser
        "b64"
      ≡ some (iv, sealed))
    × (browser.browser.decrypt key iv (location_aad browser.browser "home" 12) sealed
        ≡ some plaintext)
    × (services.parse_event (browser.browser.decode_text plaintext) ≡ some event)
    × IsAuthentic services "home" 12 ("ada" ∷ []) 1100 event location
decrypt_circle_location-IsAuthentic_example =
    decrypt_circle_location-IsAuthentic services key "b64" "home" 12 ("ada" ∷ []) 1100 location
      decrypted

abbrev live : Live
live = record {
  circles = Circles.initial_state;
  keys = record {
    circle_keys = λ c e. some key;
    bare_keys = λ c. none;
    local_storage = λ c. none;
    identity = record {
      identity_wrap_key = none;
      nostr_sk = none;
      vault_meta = none;
      scoped_home_location = none;
    };
  };
  seen = empty;
  closed = none;
}

abbrev roster : Roster
roster = record { pubkeys = "ada" ∷ []; epoch = 12; self_token = none }

abbrev envelope : CircleLocationEnvelope
envelope = record { circle_id = "home"; key_epoch = 12; ciphertext = "b64" }

abbrev random : Random
random = record { wrap_key = key; iv = [] }

handle_envelope-IsStep_example :
    IsStep
      (λ t. "")
      services
      roster
      1100
      envelope
      live
      (handle_envelope (λ t. "") browser services random roster 1100 live envelope)
      "ada"
handle_envelope-IsStep_example =
    handle_envelope-IsStep (λ t. "") browser services random roster 1100 live envelope "ada"

abbrev earlier : VerifiedCircleLocation
earlier = record location {
  content = record (location.content) { captured_at = 900 };
  event_id = "e0";
}

-- An older location arrives between two deliveries of a newer one.
abbrev arrivals : List VerifiedCircleLocation
arrivals = location ∷ earlier ∷ location ∷ []

receive_all-newest_example :
    ShowsNewest
      (λ t. "")
      ((receive_all (λ t. "") live arrivals).seen "ada")
      ((receive_all (λ t. "") live arrivals).circles.decrypted_locations "ada")
      none
      "ada"
      arrivals
receive_all-newest_example =
    receive_all-newest (λ t. "") (λ id. if id == "e1" then 1000 else 900) live "ada" arrivals refl
      (refl, (refl, (refl, tt)))
