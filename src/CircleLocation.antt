-- ===== src/CircleLocation.antt =====
-- Location envelopes: decryptCircleLocationV1 of apps/pwa/src/services/e2eeService.ts and what it
-- calls. Cryptography and JSON are parameters that give `none` where they throw. A coordinate is the
-- bit pattern of a double.
pub mod Accepted
pub mod Encryption
pub mod Delivered
mod Tests
use Prim.Native.String.{◌++◌}
use sentinelmesh.Common.{
  ℕ, zero, suc, ◌+◌, ◌-◌, ◌*◌, ◌/◌, String, Bool, true, false, ◌&&◌, ◌||◌, not, List, [], ◌∷◌, map,
  foldl, Option, none, some, ◌==◌, eqb, leb, ltb, if◌then◌else◌, length, take, drop, get_elem?, any,
  includes, and_then, only_if, decimal, is_number, number_from, is_nonce, to_lower,
}
use sentinelmesh.Common.Sets
use sentinelmesh.Types.{Double, double}
use sentinelmesh.Circles.{Precision, exact, approximate}
use sentinelmesh.Validation.{NostrEvent, is_named}
use sentinelmesh.Vault.{CryptoKey, Browser}

abbrev pub location_max_age_seconds : ℕ
location_max_age_seconds = 300

abbrev pub location_future_skew_seconds : ℕ
location_future_skew_seconds = 30

abbrev pub circle_location_event_kind : ℕ
circle_location_event_kind = 30080

-- What `JSON.parse` gives for the content, if it is an object: its keys, sorted and joined, and the
-- values of the right type. A time is here if it is a natural number, as any that is accepted is.
pub record LocationJson : Type 0 where
  pub keys : String
  pub lat : Option Double
  pub lng : Option Double
  pub accuracy_m : Option Double
  pub captured_at : Option ℕ
  pub precision : Option String

pub record CircleLocationContent : Type 0 where
  pub lat : Double
  pub lng : Double
  pub accuracy_m : Double
  pub captured_at : ℕ
  pub precision : Precision

pub record VerifiedCircleLocation : Type 0 where
  pub content : CircleLocationContent
  pub pubkey : String
  pub event_id : String
  pub expires_at : ℕ

pub record LocationServices : Type 0 where
  pub browser : Browser
  pub verify : NostrEvent → Bool
  pub parse_event : String → Option NostrEvent
  pub parse_content : String → Option LocationJson

-- The absolute value of a double, as a bit pattern, orders as the pattern; an infinite one or NaN is
-- above every finite one.
abbrev pub sign_bit : ℕ
sign_bit = 9223372036854775808

abbrev pub magnitude : Double → ℕ
magnitude (double bits) = bits - sign_bit * (bits / sign_bit)

-- The patterns of 90, 180 and 100000.
abbrev pub max_lat : ℕ
max_lat = 4636033603912859648

abbrev pub max_lng : ℕ
max_lng = 4640537203540230144

abbrev pub max_accuracy : ℕ
max_accuracy = 4681608360884174848

abbrev pub max_safe_integer : ℕ
max_safe_integer = 9007199254740991

abbrev pub within : ℕ → Double → Bool
within bound d = leb (magnitude d) bound

-- At least zero, which both zeros are.
abbrev pub is_not_negative : Double → Bool
is_not_negative (double bits) = ltb bits sign_bit || eqb (magnitude (double bits)) 0

unfoldable pub precision_of : String → Option Precision
precision_of s =
    if s == "exact" then some exact else if s == "approximate" then some approximate else none

-- The values, if each is there with its type.
unfoldable pub content_of : LocationJson → Option CircleLocationContent
content_of r = and_then r.lat (λ lat. and_then r.lng (λ lng. and_then r.accuracy_m (λ accuracy.
    and_then r.captured_at (λ captured_at. and_then r.precision (λ text.
      and_then (precision_of text) (λ precision. some (record {
        lat = lat;
        lng = lng;
        accuracy_m = accuracy;
        captured_at = captured_at;
        precision = precision;
      })))))))

abbrev pub in_ranges : CircleLocationContent → Bool
in_ranges c =
    within max_lat c.lat
    && (within max_lng c.lng
        && (is_not_negative c.accuracy_m
            && (within max_accuracy c.accuracy_m && leb c.captured_at max_safe_integer)))

-- `validCoordinateContent`, and the content that it lets through.
unfoldable pub valid_coordinate_content : LocationJson → Option CircleLocationContent
valid_coordinate_content r =
    only_if (r.keys == "accuracy_m,captured_at,lat,lng,precision")
      (and_then (content_of r) (λ c. only_if (in_ranges c) (some c)))

-- The names of the tags, if each has one of the four.
unfoldable pub known_names : List (List String) → Option (List String)
known_names [] = some []
known_names (tag ∷ tags) =
    let rest = known_names tags in
    and_then (get_elem? tag 0) (λ name.
      only_if (includes name ("circle" ∷ "epoch" ∷ "expires" ∷ "nonce" ∷ []))
        (and_then rest (λ names. some (name ∷ names))))

-- `expected.get(name)`: a later tag of a name replaces an earlier one.
unfoldable pub last_named : String → List (List String) → Option (List String)
last_named name tags = foldl (λ found tag. if is_named name tag then some tag else found) none tags

-- The value of a tag with one value.
abbrev pub value_of : Option (List String) → Option String
value_of (some (name ∷ value ∷ [])) = some value
value_of _ = none

-- A value between the first element and the end of a circle's tag, as it must be.
abbrev pub is_text : Option String → String → Bool
is_text none s = false
is_text (some t) s = t == s

-- `exactLocationTags`, with the time that it finds.
unfoldable pub exact_location_tags : NostrEvent → String → ℕ → Option ℕ
exact_location_tags event circle_id key_epoch = only_if (eqb (length event.tags) 4) (
    and_then (known_names event.tags) (λ names. only_if (eqb (length (Sets.of_list names)) 4) (
      only_if
        (is_text (value_of (last_named "circle" event.tags)) circle_id
          && is_text (value_of (last_named "epoch" event.tags)) (decimal key_epoch))
        (and_then (value_of (last_named "expires" event.tags)) (λ expires.
          only_if (is_number expires) (
            and_then (value_of (last_named "nonce" event.tags)) (λ nonce.
              only_if (is_nonce nonce && leb (number_from 0 expires) max_safe_integer)
                (some (number_from 0 expires)))))))))

-- The bytes that `decodeB64` splits into a vector and the rest.
unfoldable pub decode_b64 : Browser → String → Option (List ℕ × List ℕ)
decode_b64 browser b64 =
    and_then (browser.atob b64)
      (λ bytes. only_if (not (ltb (length bytes) 28)) (some (take 12 bytes, drop 12 bytes)))

unfoldable pub location_aad : Browser → String → ℕ → List ℕ
location_aad browser circle_id key_epoch =
    browser.encode_text
      ("sentinelmesh:circle-location:v1|" ++ (circle_id ++ ("|" ++ decimal key_epoch)))

-- The checks on the signed event.
abbrev pub is_acceptable : LocationServices → List String → ℕ → NostrEvent → Bool
is_acceptable services members now event =
    services.verify event
    && (eqb event.kind circle_location_event_kind
        && (not (ltb (now + location_future_skew_seconds) event.created_at)
            && includes (to_lower event.pubkey) members))

abbrev pub is_timely : ℕ → NostrEvent → ℕ → Bool
is_timely now event expires_at =
    not (leb expires_at now) && not (ltb (event.created_at + location_max_age_seconds) expires_at)

-- `content.captured_at < now - 300` with the subtraction on the other side.
abbrev pub is_recent : ℕ → NostrEvent → CircleLocationContent → Bool
is_recent now event content =
    eqb content.captured_at event.created_at
    && (not (ltb (now + location_future_skew_seconds) content.captured_at)
        && not (ltb (content.captured_at + location_max_age_seconds) now))

-- The checks of `decryptCircleLocationV1` after decryption.
unfoldable pub verified_location :
    LocationServices → String → ℕ → List String → ℕ → NostrEvent → Option VerifiedCircleLocation
verified_location services circle_id key_epoch members now event =
    only_if (is_acceptable services members now event) (
      and_then (exact_location_tags event circle_id key_epoch) (λ expires_at.
        only_if (is_timely now event expires_at) (
          and_then (services.parse_content event.content) (λ r.
            and_then (valid_coordinate_content r) (λ content.
              only_if (is_recent now event content) (
                some (record {
                  content = content;
                  pubkey = event.pubkey;
                  event_id = event.id;
                  expires_at = expires_at;
                })))))))

unfoldable pub decrypt_circle_location :
    LocationServices
    → CryptoKey
    → String
    → String
    → ℕ
    → List String
    → ℕ
    → Option VerifiedCircleLocation
decrypt_circle_location services circle_key ciphertext circle_id key_epoch members now =
    and_then (decode_b64 services.browser ciphertext) (λ decoded.
      and_then
        (services.browser.decrypt circle_key decoded.0
          (location_aad services.browser circle_id key_epoch) decoded.1)
        (λ plaintext.
          and_then (services.parse_event (services.browser.decode_text plaintext))
            (λ event. verified_location services circle_id key_epoch members now event)))
