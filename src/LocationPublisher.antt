-- ===== src/LocationPublisher.antt =====
-- Publishing the own location to a circle (apps/pwa/src/services/locationPublisher.ts), with
-- signNip98AuthEvent and sha256Hex of services/nostrService.ts: calls of `publish` that run from one
-- await to the next, interleaved with each other and with `stop`. The key comes from the store of
-- CircleKeys and the envelope from CircleLocation. Fetch, the position, `URL` and JSON are parameters
-- or part of the answer with which a call goes on; an await of cryptography is joined to the next.
pub mod Stopped
pub mod Envelopes
pub mod Requests
mod Tests
use Prim.Native.String.{◌++◌ as ◌<>◌}
use sentinelmesh.Common.{
  ℕ, ◌+◌, ◌*◌, String, Bool, true, false, ◌&&◌, ◌||◌, not, List, [], ◌∷◌, ◌++◌, Option, none, some,
  ◌⊎◌, inl, inr, eqb, leb, ltb, if◌then◌else◌, get_elem?, get_or, set, foldl, decimal,
}
use sentinelmesh.Circles.{Precision}
use sentinelmesh.Validation.{NostrEvent}
use sentinelmesh.Nip29.{EventTemplate}
use sentinelmesh.Vault.{CryptoKey, Random}
use sentinelmesh.Vault.Fingerprint.{sha256_hex}
use sentinelmesh.CircleKeys.{KeyBrowser, KeyStore, load_circle_key}
use sentinelmesh.CircleLocation.{max_safe_integer}
use sentinelmesh.CircleLocation.Encryption.{
  Location, SendServices, EnvelopeRandom, encrypt_circle_location,
}

pub record PublisherOptions : Type 0 where
  pub circle_id : String
  pub key_epoch : ℕ
  pub precision : Precision
  pub endpoint : Option String
  pub enabled : Bool

-- The body of a request before it is written as JSON.
pub record EnvelopeBody : Type 0 where
  pub version : ℕ
  pub key_epoch : ℕ
  pub ciphertext : String
  pub expires_at : String

pub record PublishServices : Type 0 where
  pub keys : KeyBrowser
  pub sending : SendServices
  -- From milliseconds.
  pub iso_time : ℕ → String
  pub stringify_body : EnvelopeBody → String
  -- `new URL(url, window.location.origin).toString()`.
  pub absolute_url : String → String

pub record Request : Type 0 where
  pub url : String
  pub auth : NostrEvent
  pub body : String

-- What a call awaits, or how it has ended.
pub data PublishCall : Type 0 where
  loading : PublishCall
  locating : CryptoKey → PublishCall
  -- With the time in seconds.
  encrypting : CryptoKey → Location → ℕ → PublishCall
  signing : String → PublishCall
  posting published : PublishCall
  failed : String → PublishCall

pub record PublisherWorld : Type 0 where
  pub stopped : Bool
  pub in_flight : Bool
  pub keys : KeyStore
  pub calls : List PublishCall
  -- The requests sent, in order.
  pub requests : List Request

-- What a call finds where it goes on: the time in seconds, random values, the position, `none`
-- where it is refused, and the status of the response, or the error that fetch throws.
pub record PublishAnswer : Type 0 where
  pub now : ℕ
  pub random : Random
  pub envelope_random : EnvelopeRandom
  pub position : Option Location
  pub response : String ⊎ ℕ

-- Where a call goes from an await, and what it does on the way.
pub record Progress : Type 0 where
  pub next : PublishCall
  pub stops : Bool
  pub sends : List Request

abbrev pub going : PublishCall → Progress
going next = record { next = next; stops = false; sends = [] }

abbrev pub failing : String → Progress
failing message = going (failed message)

abbrev pub stopping : String → Progress
stopping message = record { next = failed message; stops = true; sends = [] }

unfoldable pub build_location_envelope_body : PublishServices → ℕ → String → ℕ → String
build_location_envelope_body services key_epoch ciphertext expires_at =
    services.stringify_body (record {
      version = 1;
      key_epoch = key_epoch;
      ciphertext = ciphertext;
      expires_at = services.iso_time (expires_at * 1000);
    })

-- The event that authorizes a request, as signNip98AuthEvent has it signed; a hash is never empty.
abbrev pub auth_template : String → ℕ → String → String → String → EventTemplate
auth_template uuid now url method payload_hash = record {
  kind = 27235;
  created_at = now;
  tags =
      ("u" ∷ url ∷ [])
      ∷ ("method" ∷ method ∷ [])
      ∷ ("nonce" ∷ uuid ∷ [])
      ∷ ("payload" ∷ payload_hash ∷ [])
      ∷ [];
  content = "";
}

abbrev pub relative_url : PublisherOptions → String
relative_url options =
    get_or ("/api/circles/" <> (options.circle_id <> "/location")) options.endpoint

abbrev pub after_load : String ⊎ Option CryptoKey → Progress
after_load (inl message) = failing message
after_load (inr none) = stopping "Circle key is unavailable"
after_load (inr (some key)) = going (locating key)

abbrev pub after_position : CryptoKey → ℕ → Option Location → Progress
after_position key now none = stopping "Location permission or acquisition failed"
after_position key now (some position) = going (encrypting key position now)

abbrev pub after_encryption : PublishServices → PublisherOptions → ℕ → String ⊎ String → Progress
after_encryption services options expires_at (inl message) = failing message
after_encryption services options expires_at (inr ciphertext) =
    going (signing (build_location_envelope_body services options.key_epoch ciphertext expires_at))

abbrev pub after_signing : PublisherOptions → String → String ⊎ NostrEvent → Progress
after_signing options body (inl message) = failing message
after_signing options body (inr auth) = record {
  next = posting;
  stops = false;
  sends = record { url = relative_url options; auth = auth; body = body } ∷ [];
}

abbrev pub after_response : String ⊎ ℕ → Progress
after_response (inl message) = failing message
after_response (inr status) =
    if eqb status 409 || (eqb status 422 || eqb status 503)
    then stopping "Circle epoch or location protocol is not ready"
    else if leb 200 status && ltb status 300
    then going published
    else failing ("Location publish failed (" <> (decimal status <> ")"))

unfoldable pub progress :
    PublishServices → PublisherOptions → PublishAnswer → KeyStore → PublishCall → Progress
progress services options answer keys loading =
    after_load
      (load_circle_key services.keys answer.random options.circle_id options.key_epoch keys).0
progress services options answer keys (locating key) = after_position key answer.now answer.position
progress services options answer keys (encrypting key position now) =
    let expires_at = now + 5 * 60 in
    after_encryption services options expires_at (
      encrypt_circle_location services.sending answer.envelope_random answer.now key
        options.circle_id options.key_epoch (record position { captured_at = some now })
        options.precision expires_at)
progress services options answer keys (signing body) =
    let browser = services.keys.browser in
    after_signing options body (
      services.sending.sign (
        auth_template answer.envelope_random.uuid answer.now
          (services.absolute_url (relative_url options)) "POST"
          (sha256_hex browser (browser.encode_text body))))
progress services options answer keys posting = after_response answer.response
progress services options answer keys published = going published
progress services options answer keys (failed message) = failing message

-- The keys once a call has gone on: loading one may migrate it.
abbrev pub keys_after :
    PublishServices → PublisherOptions → PublishAnswer → KeyStore → PublishCall → KeyStore
keys_after services options answer keys loading =
    (load_circle_key services.keys answer.random options.circle_id options.key_epoch keys).1
keys_after services options answer keys _ = keys

abbrev pub is_running : PublishCall → Bool
is_running published = false
is_running (failed message) = false
is_running _ = true

-- A call goes on from its await; where it ends, it leaves the `try` block.
unfoldable pub resume_publish :
    PublishServices
    → PublisherOptions
    → ℕ
    → PublishAnswer
    → PublishCall
    → PublisherWorld
    → PublisherWorld
resume_publish services options i answer c w =
    let p = progress services options answer w.keys c in
    record {
      stopped = w.stopped || p.stops;
      in_flight = w.in_flight && (is_running p.next || not (is_running c));
      keys = keys_after services options answer w.keys c;
      calls = set w.calls i p.next;
      requests = w.requests ++ p.sends;
    }

abbrev pub refuse : String → PublisherWorld → PublisherWorld
refuse message w = record w { calls = w.calls ++ (failed message ∷ []) }

-- A call of `publish` up to its first await.
unfoldable pub publish : PublisherOptions → PublisherWorld → PublisherWorld
publish options w =
    if w.stopped
    then refuse "Location publisher is stopped" w
    else if not options.enabled
    then refuse "Safe circle location is disabled" (record w { stopped = true })
    else if w.in_flight
    then refuse "Location publish already in progress" w
    else if not (leb options.key_epoch max_safe_integer && leb 1 options.key_epoch)
    then refuse "Circle epoch is unavailable" (record w { stopped = true })
    else record w { in_flight = true; calls = w.calls ++ (loading ∷ []) }

pub data PublisherStep : Type 0 where
  publishes stops : PublisherStep
  goes_on : ℕ → PublishAnswer → PublisherStep

unfoldable pub publisher_step :
    PublishServices → PublisherOptions → PublisherWorld → PublisherStep → PublisherWorld
publisher_step services options w publishes = publish options w
publisher_step services options w stops = record w { stopped = true }
publisher_step services options w (goes_on i answer) = elim (get_elem? w.calls i) [
  | none ↦ w
  | some c ↦ resume_publish services options i answer c w
]

abbrev pub create_location_publisher : KeyStore → PublisherWorld
create_location_publisher keys = record {
  stopped = false;
  in_flight = false;
  keys = keys;
  calls = [];
  requests = [];
}

abbrev pub run_publisher :
    PublishServices → PublisherOptions → PublisherWorld → List PublisherStep → PublisherWorld
run_publisher services options w steps = foldl (publisher_step services options) w steps
