-- ===== src/CircleLocation/Encryption.antt =====
-- Making a location envelope: encryptCircleLocationV1 (apps/pwa/src/services/e2eeService.ts). The
-- signer, cryptography, JSON and the random values are parameters; so is the arithmetic of
-- approximateLocationForSession, which moves a position to the middle of its cell.
use sentinelmesh.Common.{
  ℕ, ◌+◌, String, Bool, true, false, ◌&&◌, not, List, [], ◌∷◌, ◌++◌, Option, none, some, ◌==◌, leb,
  ltb, if◌then◌else◌, get_or, try_then, require, decimal, ◌⊎◌, inr,
}
use sentinelmesh.Types.{Double, double}
use sentinelmesh.Circles.{Precision, exact, approximate}
use sentinelmesh.Validation.{NostrEvent}
use sentinelmesh.Nip29.{EventTemplate}
use sentinelmesh.Vault.{CryptoKey}
use sentinelmesh.CircleLocation.{
  LocationServices, LocationJson, CircleLocationContent, valid_coordinate_content, location_aad,
  location_max_age_seconds, circle_location_event_kind, max_safe_integer, magnitude, sign_bit,
}

pub record Location : Type 0 where
  pub lat : Double
  pub lng : Double
  pub accuracy_m : Double
  pub captured_at : Option ℕ

-- A position in the middle of its cell, and the size of the cell in metres.
pub record Cell : Type 0 where
  pub lat : Double
  pub lng : Double
  pub cell_m : Double

-- The signer throws an error or signs.
pub record SendServices : Type 0 where
  pub location : LocationServices
  pub approximate_location : Double → Double → Cell
  pub sign : EventTemplate → String ⊎ NostrEvent
  pub stringify_content : CircleLocationContent → String
  pub stringify_event : NostrEvent → String

-- What is drawn at random for an envelope.
pub record EnvelopeRandom : Type 0 where
  pub uuid : String
  pub iv : List ℕ

-- Above the pattern of infinity there are only those of NaN.
abbrev pub is_nan : Double → Bool
is_nan d = ltb 9218868437227405312 (magnitude d)

abbrev pub is_negative : Double → Bool
is_negative (double bits) = leb sign_bit bits

-- `Math.max(a, cell)` for a cell that is positive.
unfoldable pub max_double : Double → Double → Double
max_double a cell =
    if is_nan a
    then a
    else if is_negative a
    then cell
    else if ltb (magnitude a) (magnitude cell)
    then cell
    else a

unfoldable pub content_to_send : SendServices → ℕ → Location → Precision → CircleLocationContent
content_to_send services captured_at location approximate =
    let cell = services.approximate_location location.lat location.lng in
    record {
      lat = cell.lat;
      lng = cell.lng;
      accuracy_m = max_double location.accuracy_m cell.cell_m;
      captured_at = captured_at;
      precision = approximate;
    }
content_to_send services captured_at location exact = record {
  lat = location.lat;
  lng = location.lng;
  accuracy_m = location.accuracy_m;
  captured_at = captured_at;
  precision = exact;
}

abbrev pub precision_text : Precision → String
precision_text exact = "exact"
precision_text approximate = "approximate"

-- The content as the object that is written and read.
abbrev pub json_of : CircleLocationContent → LocationJson
json_of c = record {
  keys = "accuracy_m,captured_at,lat,lng,precision";
  lat = some c.lat;
  lng = some c.lng;
  accuracy_m = some c.accuracy_m;
  captured_at = some c.captured_at;
  precision = some (precision_text c.precision);
}

abbrev pub is_some {ℓ} : {A : Type ℓ} → Option A → Bool
is_some none = false
is_some (some a) = true

-- The content is valid and expires after it was captured, by five minutes at most.
abbrev pub is_payload : CircleLocationContent → ℕ → Bool
is_payload content expires_at =
    is_some (valid_coordinate_content (json_of content))
    && (leb expires_at max_safe_integer
        && (not (leb expires_at content.captured_at)
            && not (ltb (content.captured_at + location_max_age_seconds) expires_at)))

abbrev pub location_template :
    SendServices → EnvelopeRandom → String → ℕ → CircleLocationContent → ℕ → EventTemplate
location_template services random circle_id key_epoch content expires_at = record {
  kind = circle_location_event_kind;
  created_at = content.captured_at;
  tags =
      ("circle" ∷ circle_id ∷ [])
      ∷ ("epoch" ∷ decimal key_epoch ∷ [])
      ∷ ("expires" ∷ decimal expires_at ∷ [])
      ∷ ("nonce" ∷ random.uuid ∷ [])
      ∷ [];
  content = services.stringify_content content;
}

-- The signed event, sealed.
unfoldable pub sealed_event :
    SendServices → EnvelopeRandom → CryptoKey → String → ℕ → NostrEvent → String
sealed_event services random circle_key circle_id key_epoch event =
    let browser = services.location.browser in
    browser.btoa (
      random.iv
      ++ browser.encrypt circle_key random.iv (location_aad browser circle_id key_epoch)
          (browser.encode_text (services.stringify_event event)))

-- With the time in seconds; the error that is thrown, or the ciphertext.
unfoldable pub encrypt_circle_location :
    SendServices
    → EnvelopeRandom
    → ℕ
    → CryptoKey
    → String
    → ℕ
    → Location
    → Precision
    → ℕ
    → String ⊎ String
encrypt_circle_location services random now circle_key circle_id key_epoch location precision
      expires_at =
    let content = content_to_send services (get_or now location.captured_at) location precision in
    require (not (circle_id == "") && (leb key_epoch max_safe_integer && leb 1 key_epoch))
      "Invalid circle location context"
      (require (is_payload content expires_at) "Invalid circle location payload" (
        try_then
          (services.sign (location_template services random circle_id key_epoch content expires_at))
          (λ event. inr (sealed_event services random circle_key circle_id key_epoch event))))
