-- ===== src/CircleLocation/Tests.antt =====
-- An envelope that is made and opened, and instances of the theorem.
use sentinelmesh.Common.{
  ℕ, String, true, false, List, [], ◌∷◌, ◌++◌, none, some, ◌≡◌, refl, inl, inr, arith, decimal_on,
  digit, all_nonce, utf16_length, to_lower,
}
use sentinelmesh.Types.{double}
use sentinelmesh.Circles.{exact}
use sentinelmesh.Validation.{NostrEvent}
use sentinelmesh.Vault.{CryptoKey}
use sentinelmesh.CircleLocation.{
  CircleLocationContent, decrypt_circle_location, valid_coordinate_content, content_of,
  precision_of,
}
use sentinelmesh.CircleLocation.Encryption.{
  Location, SendServices, EnvelopeRandom, json_of, content_to_send, max_double,
  encrypt_circle_location, sealed_event,
}
use sentinelmesh.CircleLocation.Delivered.{IsCarried, finalized, decrypt_circle_location-encrypted}

abbrev key : CryptoKey
key = record { raw = 9 ∷ []; extractable = false }

abbrev here : Location
here = record {
  lat = double 4607182418800017408;
  lng = double 4607182418800017408;
  accuracy_m = double 4607182418800017408;
  captured_at = some 100;
}

abbrev content : CircleLocationContent
content = record {
  lat = double 4607182418800017408;
  lng = double 4607182418800017408;
  accuracy_m = double 4607182418800017408;
  captured_at = 100;
  precision = exact;
}

abbrev uuid : String
uuid = "00000000-0000-4000-8000-000000000000"

abbrev event : NostrEvent
event = record {
  id = "id";
  pubkey = "aa";
  created_at = 100;
  kind = 30080;
  tags =
      ("circle" ∷ "home" ∷ [])
      ∷ ("epoch" ∷ "2" ∷ [])
      ∷ ("expires" ∷ "350" ∷ [])
      ∷ ("nonce" ∷ uuid ∷ [])
      ∷ [];
  content = "content";
}

abbrev iv : List ℕ
iv = 1 ∷ 1 ∷ 1 ∷ 1 ∷ 1 ∷ 1 ∷ 1 ∷ 1 ∷ 1 ∷ 1 ∷ 1 ∷ 1 ∷ []

abbrev ciphertext : List ℕ
ciphertext = 2 ∷ 2 ∷ 2 ∷ 2 ∷ 2 ∷ 2 ∷ 2 ∷ 2 ∷ 2 ∷ 2 ∷ 2 ∷ 2 ∷ 2 ∷ 2 ∷ 2 ∷ 2 ∷ []

-- Encodings of the one event.
abbrev services : SendServices
services = record {
  location = record {
    browser = record {
      btoa = λ bs. "sealed";
      atob = λ s. some (iv ++ ciphertext);
      stringify = λ p. "";
      parse = λ s. none;
      encode_text = λ s. 3 ∷ [];
      decode_text = λ bs. "event";
      encrypt = λ k i a p. ciphertext;
      decrypt = λ k i a c. some (3 ∷ []);
      sha256 = λ bs. bs;
      public_key = λ sk. "";
    };
    verify = λ e. true;
    parse_event = λ s. some event;
    parse_content = λ s. some (json_of content);
  };
  approximate_location = λ lat lng. record { lat = lat; lng = lng; cell_m = double 0 };
  sign = λ t. inr (finalized "id" "aa" t);
  stringify_content = λ c. "content";
  stringify_event = λ e. "event";
}

abbrev random : EnvelopeRandom
random = record { uuid = uuid; iv = iv }

sent : encrypt_circle_location services random 100 key "home" 2 here exact 350 ≡ inr "sealed"
unfolding encrypt_circle_location content_to_send valid_coordinate_content content_of precision_of
    sealed_event
sent = refl

-- An envelope may not outlive five minutes.
refused :
    encrypt_circle_location services random 100 key "home" 2 here exact 401
    ≡ inl "Invalid circle location payload"
unfolding encrypt_circle_location content_to_send valid_coordinate_content content_of precision_of
refused = refl

-- The accuracy is raised to the size of the cell, a negative one too, but not NaN: 1 and 2.5 here.
accuracies :
    (max_double (double 4607182418800017408) (double 4612811918334230528)
      ≡ double 4612811918334230528)
    × (max_double (double 13830554455654793216) (double 4612811918334230528)
        ≡ double 4612811918334230528)
    × (max_double (double 9221120237041090560) (double 4612811918334230528)
        ≡ double 9221120237041090560)
unfolding max_double
accuracies = (refl, refl, refl)

event-IsCarried : IsCarried services random key "home" 2 content event
unfolding all_nonce utf16_length
event-IsCarried = record {
  vector = refl;
  tagged = omega arith;
  nonce = refl;
  verifies = refl;
  carried = refl;
  decrypts = refl;
  parses = refl;
  parses_content = refl;
}

decrypt_circle_location-encrypted_example :
    decrypt_circle_location services.location key "sealed" "home" 2 ("aa" ∷ []) 349
    ≡ some (record { content = content; pubkey = "aa"; event_id = "id"; expires_at = 350 })
unfolding content_to_send decimal_on digit to_lower
decrypt_circle_location-encrypted_example =
    decrypt_circle_location-encrypted services random key "home" 2 100 here exact 350 "sealed" "id"
      "aa" ("aa" ∷ []) 349 sent refl event-IsCarried refl (omega arith) (omega arith)
