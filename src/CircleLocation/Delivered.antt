-- ===== src/CircleLocation/Delivered.antt =====
-- A location that a member encrypts is the one that the other members decrypt.
use sentinelmesh.Common.{
  ℕ, ◌+◌, ◌≤◌, ◌<◌, String, Bool, true, false, ◌&&◌, List, ◌++◌, Option, none, some, ◌≡◌, refl, sym,
  ap, ◌∙◌, ◌⊎◌, inl, inr, leb, ltb, arith, eq_refl, length, decimal, is_nonce, number_from-decimal,
  get_or, includes, to_lower, try_then-inr, require-inr, Bool-cases,
}
use sentinelmesh.Common.Sets
use sentinelmesh.Circles.{Precision, exact, approximate}
use sentinelmesh.Validation.{NostrEvent}
use sentinelmesh.Nip29.{EventTemplate}
use sentinelmesh.Vault.{CryptoKey}
use sentinelmesh.Vault.RoundTrip.{take-vector, drop-vector, long_enough}
use sentinelmesh.CircleLocation.{
  CircleLocationContent, exact_location_tags, known_names, last_named, decode_b64, location_aad,
  verified_location, is_timely, is_recent, valid_coordinate_content, content_of, precision_of,
  in_ranges, decrypt_circle_location, max_safe_integer,
}
use sentinelmesh.CircleLocation.Encryption.{
  SendServices, EnvelopeRandom, Location, content_to_send, json_of, precision_text, is_some,
  is_payload, location_template, sealed_event, encrypt_circle_location,
}

-- The event that the signer makes of a template.
abbrev pub finalized : String → String → EventTemplate → NostrEvent
finalized id pubkey t = record {
  id = id;
  pubkey = pubkey;
  created_at = t.created_at;
  kind = t.kind;
  tags = t.tags;
  content = t.content;
}

precision_of-text : (p : Precision) → precision_of (precision_text p) ≡ some p
unfolding precision_of
precision_of-text exact = refl
precision_of-text approximate = refl

content_of-json_of : (c : CircleLocationContent) → content_of (json_of c) ≡ some c
unfolding content_of
content_of-json_of c = rw (precision_of-text c.precision) refl

no_content :
    (o : Option CircleLocationContent) (rest : Bool) → o ≡ none → is_some o && rest ≡ true → ⊥
no_content none rest e h = ground (arith, h)
no_content (some c) rest e h = ground (arith, e)

-- A payload that is sent is one that is accepted.
payload_valid :
    (c : CircleLocationContent) (expires_at : ℕ)
    → is_payload c expires_at ≡ true
    → valid_coordinate_content (json_of c) ≡ some c
unfolding valid_coordinate_content
payload_valid c expires_at h = elim (Bool-cases (in_ranges c)) [
  | inl y ↦ rw (content_of-json_of c, y) refl
  | inr n ↦
      absurd
        (no_content (valid_coordinate_content (json_of c)) _ (rw (content_of-json_of c, n) refl) h)
]

inr_injective : {A : Type 0} {a b : A} → ◌≡◌ {A = String ⊎ A} (inr a) (inr b) → a ≡ b
inr_injective {A} {a} {b} h = ap (value_or a) h
  where
    value_or : A → String ⊎ A → A
    value_or d (inl message) = d
    value_or d (inr x) = x

module _ (services : SendServices) (random : EnvelopeRandom) (circle_key : CryptoKey)
    (circle_id : String) (key_epoch : ℕ) where
  abbrev pub event_bytes : NostrEvent → List ℕ
  event_bytes event = services.location.browser.encode_text (services.stringify_event event)

  abbrev pub ciphertext : NostrEvent → List ℕ
  ciphertext event =
      services.location.browser.encrypt circle_key random.iv
        (location_aad services.location.browser circle_id key_epoch) (event_bytes event)

  -- The event is valid, and the cipher, the encodings and JSON give it and its content back; a vector
  -- has 12 bytes, a ciphertext a tag of 16, and a UUID the form of one.
  pub record IsCarried (content : CircleLocationContent) (event : NostrEvent) : Type 0 where
    pub vector : length random.iv ≡ 12
    pub tagged : 16 ≤ length (ciphertext event)
    pub nonce : is_nonce random.uuid ≡ true
    pub verifies : services.location.verify event ≡ true
    pub carried :
        services.location.browser.atob
          (services.location.browser.btoa (random.iv ++ ciphertext event))
        ≡ some (random.iv ++ ciphertext event)
    pub decrypts :
        services.location.browser.decrypt circle_key random.iv
          (location_aad services.location.browser circle_id key_epoch)
          (ciphertext event)
        ≡ some (event_bytes event)
    pub parses :
        services.location.parse_event (services.location.browser.decode_text (event_bytes event))
        ≡ some event
    pub parses_content :
        services.location.parse_content (services.stringify_content content)
        ≡ some (json_of content)

  tags_read :
      (id pubkey : String) (content : CircleLocationContent) (expires_at : ℕ)
      → is_nonce random.uuid ≡ true
      → leb expires_at max_safe_integer ≡ true
      → exact_location_tags
          (finalized id pubkey
            (location_template services random circle_id key_epoch content expires_at))
          circle_id
          key_epoch
        ≡ some expires_at
  unfolding exact_location_tags known_names last_named Sets.of_list
  tags_read id pubkey content expires_at nonce safe =
      let (a, b) = number_from-decimal expires_at in
      rw (eq_refl circle_id, eq_refl (decimal key_epoch), b, a, nonce, safe) refl

  -- The checks after decryption.
  verified :
      (id pubkey : String) (content : CircleLocationContent) (expires_at now : ℕ)
      (members : List String)
      → let event =
          finalized id pubkey
            (location_template services random circle_id key_epoch content expires_at) in
        IsCarried content event
        → is_payload content expires_at ≡ true
        → includes (to_lower pubkey) members ≡ true
        → content.captured_at ≤ now + 30
        → now < expires_at
        → verified_location services.location circle_id key_epoch members now event
          ≡ some (record {
            content = content;
            pubkey = pubkey;
            event_id = id;
            expires_at = expires_at;
          })
  unfolding verified_location
  verified id pubkey content expires_at now members c payload member early late =
      let event =
        finalized id pubkey
          (location_template services random circle_id key_epoch content expires_at) in
      let safe : leb expires_at max_safe_integer ≡ true = ground (arith, payload) in
      let timely : is_timely now event expires_at ≡ true = ground (arith, payload, late) in
      let recent : is_recent now event content ≡ true = ground (arith, payload, early, late) in
      let ahead : ltb (now + 30) content.captured_at ≡ false = ground (arith, early) in
      rw
        (
          c.verifies,
          ahead,
          member,
          tags_read id pubkey content expires_at c.nonce safe,
          timely,
          c.parses_content,
          payload_valid content expires_at payload,
          recent,
        )
        refl

  opened :
      (content : CircleLocationContent) (event : NostrEvent)
      → IsCarried content event
      → (members : List String) (now : ℕ)
      → decrypt_circle_location services.location circle_key
          (sealed_event services random circle_key circle_id key_epoch event)
          circle_id
          key_epoch
          members
          now
        ≡ verified_location services.location circle_id key_epoch members now event
  unfolding decrypt_circle_location decode_b64 sealed_event
  opened content event c members now =
      rw
        (
          c.carried,
          long_enough random.iv (ciphertext event) c.vector c.tagged,
          take-vector random.iv (ciphertext event) c.vector,
          drop-vector random.iv (ciphertext event) c.vector,
          c.decrypts,
          c.parses,
        )
        refl

  -- A location that a member encrypts without an error for a circle and epoch is decrypted by everyone who has the key and counts the signer as a member, until it expires and from thirty seconds before it was captured: they get the content that was sent, the signer's key, the id of the signed event and the time at which it expires. The signed event has the template's fields and a valid signature, and the cipher, the encodings and JSON give it back.
  pub decrypt_circle_location-encrypted :
      (now : ℕ) (location : Location) (precision : Precision) (expires_at : ℕ)
      (text id pubkey : String) (members : List String) (later : ℕ)
      → let content =
          content_to_send services (get_or now location.captured_at) location precision in
        let template = location_template services random circle_id key_epoch content expires_at in
        encrypt_circle_location services random now circle_key circle_id key_epoch location
            precision expires_at
          ≡ inr text
        → services.sign template ≡ inr (finalized id pubkey template)
        → IsCarried content (finalized id pubkey template)
        → includes (to_lower pubkey) members ≡ true
        → content.captured_at ≤ later + 30
        → later < expires_at
        → decrypt_circle_location services.location circle_key text circle_id key_epoch members
            later
          ≡ some (record {
            content = content;
            pubkey = pubkey;
            event_id = id;
            expires_at = expires_at;
          })
  unfolding encrypt_circle_location
  decrypt_circle_location-encrypted now location precision expires_at text id pubkey members later h
        signs c member early late =
      let content = content_to_send services (get_or now location.captured_at) location precision in
      let event =
        finalized id pubkey
          (location_template services random circle_id key_epoch content expires_at) in
      let (context, a) = require-inr _ _ _ h in
      let (payload, b) = require-inr (is_payload content expires_at) _ _ a in
      let (signed, d, e) = try_then-inr (services.sign _) _ b in
      let same : signed ≡ event = inr_injective (sym d ∙ signs) in
      let sent : sealed_event services random circle_key circle_id key_epoch event ≡ text =
        ap (sealed_event services random circle_key circle_id key_epoch) (sym same)
        ∙ inr_injective e in
      ap
        (λ t.
          decrypt_circle_location services.location circle_key t circle_id key_epoch members later)
        (sym sent)
      ∙ opened content event c members later
      ∙ verified id pubkey content expires_at later members c payload member early late
