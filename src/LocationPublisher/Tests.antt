-- ===== src/LocationPublisher/Tests.antt =====
-- A publisher that is stopped while it publishes, and instances of the theorems.
use sentinelmesh.Common.{◌+◌, true, false, List, [], ◌∷◌, none, some, ◌≡◌, refl, inr, length, ◌≤◌}
use sentinelmesh.Types.{double}
use sentinelmesh.Circles.{exact}
use sentinelmesh.Vault.{CryptoKey}
use sentinelmesh.CircleKeys.{KeyBrowser, KeyStore, load_circle_key}
use sentinelmesh.CircleLocation.{valid_coordinate_content, content_of, precision_of}
use sentinelmesh.CircleLocation.Encryption.{SendServices, encrypt_circle_location, content_to_send}
use sentinelmesh.CircleLocation.Delivered.{finalized}
use sentinelmesh.LocationPublisher.{
  PublisherOptions, PublishServices, PublisherWorld, PublishAnswer, PublisherStep, publishes, stops,
  goes_on, published, failed, progress, resume_publish, publish, publisher_step,
  create_location_publisher, run_publisher,
}
use sentinelmesh.LocationPublisher.Stopped.{flag, requests-run_stopped}
use sentinelmesh.LocationPublisher.Envelopes.{Every, IsAuthorized}
use sentinelmesh.LocationPublisher.Requests.{requests-IsAuthorized}

abbrev key : CryptoKey
key = record { raw = 9 ∷ []; extractable = false }

abbrev browser : KeyBrowser
browser = record {
  browser = record {
    btoa = λ bs. "sealed";
    atob = λ s. some [];
    stringify = λ p. "";
    parse = λ s. none;
    encode_text = λ s. 3 ∷ [];
    decode_text = λ bs. "";
    encrypt = λ k i a p. p;
    decrypt = λ k i a c. none;
    sha256 = λ bs. bs;
    public_key = λ sk. "";
  };
  import_key = λ raw extractable. inr key;
}

abbrev sending : SendServices
sending = record {
  location = record {
    browser = browser.browser;
    verify = λ e. true;
    parse_event = λ s. none;
    parse_content = λ s. none;
  };
  approximate_location = λ lat lng. record { lat = lat; lng = lng; cell_m = double 0 };
  sign = λ t. inr (finalized "id" "aa" t);
  stringify_content = λ c. "content";
  stringify_event = λ e. "event";
}

abbrev services : PublishServices
services = record {
  keys = browser;
  sending = sending;
  iso_time = λ t. "later";
  stringify_body = λ b. b.ciphertext;
  absolute_url = λ url. url;
}

abbrev options : PublisherOptions
options = record {
  circle_id = "home";
  key_epoch = 2;
  precision = exact;
  endpoint = none;
  enabled = true;
}

abbrev keys : KeyStore
keys = record {
  circle_keys = λ c e. some key;
  bare_keys = λ c. none;
  local_storage = λ c. none;
  identity = record {
    identity_wrap_key = none;
    nostr_sk = none;
    vault_meta = none;
    scoped_home_location = none;
  };
}

abbrev answer : PublishAnswer
answer = record {
  now = 100;
  random = record { wrap_key = key; iv = [] };
  envelope_random = record { uuid = "uuid"; iv = 1 ∷ [] };
  position = some (record {
    lat = double 4607182418800017408;
    lng = double 4607182418800017408;
    accuracy_m = double 4607182418800017408;
    captured_at = none;
  });
  response = inr 200;
}

-- Stopped while the position is awaited; a second call is refused before that.
abbrev before : List PublisherStep
before = publishes ∷ goes_on 0 answer ∷ publishes ∷ stops ∷ []

abbrev after : List PublisherStep
after = goes_on 0 answer ∷ goes_on 0 answer ∷ goes_on 0 answer ∷ goes_on 0 answer ∷ publishes ∷ []

abbrev halted : PublisherWorld
halted = run_publisher services options (create_location_publisher keys) before

abbrev later : PublisherWorld
later = run_publisher services options halted after

still_sent : (halted.stopped ≡ true) × (halted.requests ≡ []) × (length later.requests ≡ 1)
unfolding publisher_step publish resume_publish progress load_circle_key encrypt_circle_location
    content_to_send valid_coordinate_content content_of precision_of
still_sent = (refl, refl, refl)

how_ended :
    later.calls
    ≡ published
      ∷ failed "Location publish already in progress"
      ∷ failed "Location publisher is stopped"
      ∷ []
unfolding publisher_step publish resume_publish progress load_circle_key encrypt_circle_location
    content_to_send valid_coordinate_content content_of precision_of
how_ended = refl

requests-run_stopped_example :
    length later.requests ≤ length halted.requests + flag halted.in_flight
unfolding publisher_step publish resume_publish progress load_circle_key
requests-run_stopped_example = requests-run_stopped services options keys before after refl

abbrev all_steps : List PublisherStep
all_steps =
    publishes
    ∷ goes_on 0 answer
    ∷ publishes
    ∷ stops
    ∷ goes_on 0 answer
    ∷ goes_on 0 answer
    ∷ goes_on 0 answer
    ∷ goes_on 0 answer
    ∷ publishes
    ∷ []

requests-IsAuthorized_example :
    Every
      (IsAuthorized services options keys all_steps)
      (run_publisher services options (create_location_publisher keys) all_steps).requests
requests-IsAuthorized_example = requests-IsAuthorized services options keys all_steps
