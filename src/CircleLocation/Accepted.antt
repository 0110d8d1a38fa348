-- ===== src/CircleLocation/Accepted.antt =====
-- What a location guarantees that was taken from an envelope.
use sentinelmesh.Common.{
  ℕ, ◌+◌, ◌≤◌, ◌<◌, String, true, ◌&&◌, List, Option, none, some, ◌≡◌, refl, ap, subst, ◌==◌, eqb,
  leb, length, arith, eq_iff, includes, decimal, is_number, number_from, is_nonce, to_lower,
  and_then-some, only_if-some,
}
use sentinelmesh.Common.Sets
use sentinelmesh.Validation.{NostrEvent}
use sentinelmesh.Vault.{CryptoKey}
use sentinelmesh.CircleLocation.{
  LocationServices, CircleLocationContent, VerifiedCircleLocation, LocationJson, within, max_lat,
  max_lng, max_accuracy, is_not_negative, in_ranges, content_of, valid_coordinate_content,
  known_names, last_named, value_of, is_text, exact_location_tags, decode_b64, location_aad,
  is_acceptable, is_timely, is_recent, verified_location, decrypt_circle_location,
  circle_location_event_kind,
}

-- The tag of a name has one value, and that is this text.
is_text-eq : (o : Option String) (s : String) → is_text o s ≡ true → o ≡ some s
is_text-eq none s h = absurd (ground arith)
is_text-eq (some t) s h = ap some ((eq_iff t s).0 h)

-- The tags are bound to the circle and the epoch, and say until when the location holds.
abbrev pub IsBound : NostrEvent → String → ℕ → ℕ → Type 0
IsBound event circle_id key_epoch expires_at =
    (length event.tags ≡ 4)
    × (value_of (last_named "circle" event.tags) ≡ some circle_id)
    × (value_of (last_named "epoch" event.tags) ≡ some (decimal key_epoch))
    × ((expires : String) × (value_of (last_named "expires" event.tags) ≡ some expires)
        × (is_number expires ≡ true)
        × (number_from 0 expires ≡ expires_at))

exact_location_tags-IsBound :
    (event : NostrEvent) (circle_id : String) (key_epoch expires_at : ℕ)
    → exact_location_tags event circle_id key_epoch ≡ some expires_at
    → IsBound event circle_id key_epoch expires_at
unfolding exact_location_tags
exact_location_tags-IsBound event circle_id key_epoch expires_at h =
    let (four, a) = only_if-some (eqb (length event.tags) 4) _ h in
    let (names, known, b) = and_then-some (known_names event.tags) _ a in
    let (distinct, c) = only_if-some (eqb (length (Sets.of_list names)) 4) _ b in
    let (bound, d) =
      only_if-some
        (is_text (value_of (last_named "circle" event.tags)) circle_id
          && is_text (value_of (last_named "epoch" event.tags)) (decimal key_epoch))
        _ c in
    let (expires, e, f) = and_then-some (value_of (last_named "expires" event.tags)) _ d in
    let (number, g) = only_if-some (is_number expires) _ f in
    let (nonce, i, j) = and_then-some (value_of (last_named "nonce" event.tags)) _ g in
    let (safe, k) =
      only_if-some (is_nonce nonce && leb (number_from 0 expires) 9007199254740991) _ j in
    (
      ground (arith, four),
      is_text-eq _ circle_id (ground (arith, bound)),
      is_text-eq _ (decimal key_epoch) (ground (arith, bound)),
      (expires, e, number, ground (arith, k)),
    )

-- The coordinates and the accuracy lie in their ranges.
abbrev pub InRanges : CircleLocationContent → Type 0
InRanges c =
    (within max_lat c.lat ≡ true)
    × (within max_lng c.lng ≡ true)
    × (within max_accuracy c.accuracy_m ≡ true)
    × (is_not_negative c.accuracy_m ≡ true)

ranges : (c : CircleLocationContent) → in_ranges c ≡ true → InRanges c
ranges c h = (ground (arith, h), ground (arith, h), ground (arith, h), ground (arith, h))

valid-InRanges :
    (r : LocationJson) (c : CircleLocationContent)
    → valid_coordinate_content r ≡ some c
    → InRanges c
unfolding valid_coordinate_content
valid-InRanges r c h =
    let (keys, a) = only_if-some (r.keys == "accuracy_m,captured_at,lat,lng,precision") _ h in
    let (d, got, b) = and_then-some (content_of r) _ a in
    let (fine, e) = only_if-some (in_ranges d) _ b in
    subst (λ o. elim o [ none ↦ Unit | some x ↦ InRanges x ]) e (ranges d fine)

-- A member signed the event that the location comes from, for this circle and epoch, and the location is current: made at most five minutes before now and thirty seconds after, not expired, and to expire within five minutes of being made.
abbrev pub IsAuthentic :
    LocationServices → String → ℕ → List String → ℕ → NostrEvent → VerifiedCircleLocation → Type 0
IsAuthentic services circle_id key_epoch members now event v =
    (services.verify event ≡ true)
    × (event.kind ≡ circle_location_event_kind)
    × (includes (to_lower event.pubkey) members ≡ true)
    × IsBound event circle_id key_epoch v.expires_at
    × (v.pubkey ≡ event.pubkey)
    × (v.event_id ≡ event.id)
    × (v.content.captured_at ≡ event.created_at)
    × (v.content.captured_at ≤ now + 30)
    × (now ≤ v.content.captured_at + 300)
    × (now < v.expires_at)
    × (v.expires_at ≤ v.content.captured_at + 300)
    × InRanges v.content

verified-IsAuthentic :
    (services : LocationServices) (circle_id : String) (key_epoch : ℕ) (members : List String)
    (now : ℕ) (event : NostrEvent) (v : VerifiedCircleLocation)
    → verified_location services circle_id key_epoch members now event ≡ some v
    → IsAuthentic services circle_id key_epoch members now event v
unfolding verified_location
verified-IsAuthentic services circle_id key_epoch members now event v h =
    let (accepted, a) = only_if-some (is_acceptable services members now event) _ h in
    let (expires_at, tags, b) = and_then-some (exact_location_tags event circle_id key_epoch) _ a in
    let (timely, c) = only_if-some (is_timely now event expires_at) _ b in
    let (r, parsed, d) = and_then-some (services.parse_content event.content) _ c in
    let (content, valid, e) = and_then-some (valid_coordinate_content r) _ d in
    let (recent, f) = only_if-some (is_recent now event content) _ e in
    subst
      (λ o. elim o [
        | none ↦ Unit
        | some x ↦ IsAuthentic services circle_id key_epoch members now event x
      ])
      f
      (
        ground (arith, accepted),
        ground (arith, accepted),
        ground (arith, accepted),
        exact_location_tags-IsBound event circle_id key_epoch expires_at tags,
        refl,
        refl,
        ground (arith, recent),
        ground (arith, recent),
        ground (arith, recent),
        ground (arith, timely),
        ground (arith, timely, recent),
        valid-InRanges r content valid,
      )

-- A location that is taken from an envelope comes from a signed event that the envelope held, encrypted under the circle's key and bound to the circle and epoch: its signature is valid, its author is one of the given members, its tags name this circle and epoch, it was made at most five minutes ago and not more than thirty seconds in the future, it has not expired and expires within five minutes of being made, and its coordinates and accuracy lie in their ranges.
pub decrypt_circle_location-IsAuthentic :
    (services : LocationServices) (circle_key : CryptoKey) (ciphertext circle_id : String)
    (key_epoch : ℕ) (members : List String) (now : ℕ) (v : VerifiedCircleLocation)
    → decrypt_circle_location services circle_key ciphertext circle_id key_epoch members now
      ≡ some v
    → (iv : List ℕ) × (sealed plaintext : List ℕ) × (event : NostrEvent) × (decode_b64
          services.browser ciphertext
        ≡ some (iv, sealed))
      × (services.browser.decrypt circle_key iv
            (location_aad services.browser circle_id key_epoch)
            sealed
          ≡ some plaintext)
      × (services.parse_event (services.browser.decode_text plaintext) ≡ some event)
      × IsAuthentic services circle_id key_epoch members now event v
unfolding decrypt_circle_location
decrypt_circle_location-IsAuthentic services circle_key ciphertext circle_id key_epoch members now v
      h =
    let (decoded, d, a) = and_then-some (decode_b64 services.browser ciphertext) _ h in
    let (plaintext, p, b) =
      and_then-some
        (services.browser.decrypt circle_key decoded.0
          (location_aad services.browser circle_id key_epoch) decoded.1)
        _ a in
    let (event, e, c) =
      and_then-some (services.parse_event (services.browser.decode_text plaintext)) _ b in
    (
      decoded.0,
      decoded.1,
      plaintext,
      event,
      d,
      p,
      e,
      verified-IsAuthentic services circle_id key_epoch members now event v c,
    )
