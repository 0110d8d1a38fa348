-- ===== src/Validation.antt =====
-- The checks on signed events that run before any decryption or rendering
-- (apps/pwa/src/services/chat/eventValidation.ts). An event has the fields of NIP-01; `verify` is
-- nostr-tools' `verifyEvent`, false where that function throws.
pub mod Tags
pub mod Bounds
use sentinelmesh.Common.{
  ℕ, zero, suc, ◌+◌, ◌-◌, ◌/◌, String, Bool, true, false, ◌&&◌, not, List, [], ◌∷◌, Option, none,
  some, ◌==◌, eqb, ltb, leb, if◌then◌else◌, length, get_elem?, utf16_length, all_lowercase_hex,
  escaped_all,
}

pub record NostrEvent : Type 0 where
  pub id : String
  pub pubkey : String
  pub created_at : ℕ
  pub kind : ℕ
  pub tags : List (List String)
  pub content : String

abbrev pub max_event_bytes : ℕ
max_event_bytes = 100000

abbrev pub max_message_bytes : ℕ
max_message_bytes = 16384

abbrev pub max_created_at_skew_seconds : ℕ
max_created_at_skew_seconds = 172800

abbrev pub max_tags : ℕ
max_tags = 256

abbrev pub max_room_participants : ℕ
max_room_participants = 10

-- `/^[0-9a-f]{64}$/`
unfoldable pub is_lowercase_hex64 : String → Bool
is_lowercase_hex64 s = all_lowercase_hex s && eqb (utf16_length s) 64

-- The length of what `JSON.stringify` writes: a text in quotes, a number, an array.
abbrev pub string_length : String → ℕ
string_length s = escaped_all s + 2

-- A number has at most as many digits as its value, or one: so much fuel is enough.
unfoldable pub digits : ℕ → ℕ → ℕ
digits zero n = 1
digits (suc fuel) n = let rest = digits fuel (n / 10) in if ltb n 10 then 1 else 1 + rest

abbrev pub number_length : ℕ → ℕ
number_length n = digits n n

-- Each element but the first has a comma before it.
unfoldable pub elements_length {ℓ} : {A : Type ℓ} → (A → ℕ) → List A → ℕ
elements_length f [] = 0
elements_length f (x ∷ []) = f x
elements_length f (x ∷ y ∷ ys) = f x + 1 + elements_length f (y ∷ ys)

abbrev pub array_length {ℓ} : {A : Type ℓ} → (A → ℕ) → List A → ℕ
array_length f xs = elements_length f xs + 2

unfoldable pub tags_length : List (List String) → ℕ
tags_length tags = array_length (array_length string_length) tags

-- `[0, pubkey, created_at, kind, tags, content]`: two brackets, the digit 0 and five commas.
unfoldable pub event_size_bytes : NostrEvent → ℕ
event_size_bytes event =
    8
    + string_length event.pubkey
    + number_length event.created_at
    + number_length event.kind
    + tags_length event.tags
    + string_length event.content

-- `Math.abs(now - created_at)`
abbrev pub skew_of : ℕ → ℕ → ℕ
skew_of now at = (now - at) + (at - now)

-- With the default options, which every caller uses.
unfoldable pub within_event_bounds : NostrEvent → ℕ → Bool
within_event_bounds event now =
    if ltb max_event_bytes (event_size_bytes event)
    then false
    else if ltb max_tags (length event.tags)
    then false
    else if not (is_lowercase_hex64 event.pubkey)
    then false
    else if ltb max_created_at_skew_seconds (skew_of now event.created_at)
    then false
    else true

-- `tag[0] === name`
abbrev pub is_named : String → List String → Bool
is_named name [] = false
is_named name (n ∷ _) = n == name

-- The loop of `singleTag`, with `found`. A duplicate returns at once.
unfoldable pub single_tag_from : Option String → List (List String) → String → Option String
single_tag_from found [] name = found
single_tag_from none (tag ∷ tags) name =
    let next = if is_named name tag then get_elem? tag 1 else none in single_tag_from next tags name
single_tag_from (some v) (tag ∷ tags) name =
    let rest = single_tag_from (some v) tags name in if is_named name tag then none else rest

unfoldable pub single_tag : NostrEvent → String → Option String
single_tag event name = single_tag_from none event.tags name

unfoldable pub valid_message_content : String → Bool
valid_message_content content =
    ltb 0 (utf16_length content) && leb (utf16_length content) max_message_bytes
