-- ===== src/Nip29/RoundTrip.antt =====
-- Messages that the client creates pass the check of the clients that receive them.
use sentinelmesh.Common.{
  ℕ, ◌≤◌, ◌<◌, String, Bool, true, [], ◌∷◌, some, ◌==◌, ◌≡◌, inl, inr, arith, Bool-cases,
  Option-cases, utf16_length, escaped_all, escaped_all-le, escaped_all-hex, eq_iff, refl, ap, ◌∙◌,
}
use sentinelmesh.Validation.{
  NostrEvent, event_size_bytes, elements_length, tags_length, within_event_bounds,
  is_lowercase_hex64, skew_of, max_created_at_skew_seconds, single_tag, single_tag_from,
  valid_message_content,
}
use sentinelmesh.Validation.Tags.{IsLone, values_of, single_tag-IsLone}
use sentinelmesh.Validation.Bounds.{number_length-le}
use sentinelmesh.Nip29.{
  EventTemplate, ChannelMessage, create_channel_message, has_tag, validate_channel_message,
  sign_channel_message,
}

-- The signer returns an event with the fields of the template and a proper public key.
abbrev pub Carries : EventTemplate → NostrEvent → Type 0
Carries template event =
    (event.kind ≡ template.kind)
    × (event.created_at ≡ template.created_at)
    × (event.tags ≡ template.tags)
    × (event.content ≡ template.content)
    × (is_lowercase_hex64 event.pubkey ≡ true)

hex64_size : (s : String) → is_lowercase_hex64 s ≡ true → escaped_all s ≡ 64
unfolding is_lowercase_hex64
hex64_size s h = ground (arith, escaped_all-hex s)

h_tags_size : (g : String) → utf16_length g ≤ 256 → tags_length (("h" ∷ g ∷ []) ∷ []) ≤ 1546
unfolding tags_length elements_length escaped_all
h_tags_size g h = ground (arith, escaped_all-le g)

-- Six characters for each unit of the longest content still leave room for the rest of the event.
event_size-le :
    (event : NostrEvent) (g : String)
    → is_lowercase_hex64 event.pubkey ≡ true
    → event.created_at < 10000000000
    → event.kind ≡ 9
    → event.tags ≡ ("h" ∷ g ∷ []) ∷ []
    → utf16_length g ≤ 256
    → utf16_length event.content ≤ 16384
    → event_size_bytes event ≤ 100000
unfolding event_size_bytes
event_size-le event g hex early kind tags short content =
    rw (kind, tags)
      (omega (
        arith,
        hex64_size event.pubkey hex,
        number_length-le event.created_at early,
        number_length-le 9 (ground arith),
        h_tags_size g short,
        escaped_all-le event.content,
      ))

created-fields :
    (now : ℕ) (g content : String) (message : ChannelMessage)
    → create_channel_message now g content ≡ inr message
    → (message.template.kind ≡ 9)
      × (message.template.created_at ≡ now)
      × (message.template.tags ≡ ("h" ∷ g ∷ []) ∷ [])
      × (message.template.content ≡ content)
      × (valid_message_content content ≡ true)
unfolding create_channel_message
created-fields now g content message h = elim (Bool-cases (valid_message_content content)) [
  | inl valid ↦ elim (Bool-cases (g == "")) [
    | inl missing ↦ absurd (ground arith)
    | inr present ↦ ground arith
  ]
  | inr invalid ↦ absurd (ground arith)
]

within_bounds :
    (event : NostrEvent) (g : String) (now : ℕ)
    → event_size_bytes event ≤ 100000
    → event.tags ≡ ("h" ∷ g ∷ []) ∷ []
    → is_lowercase_hex64 event.pubkey ≡ true
    → skew_of now event.created_at ≤ max_created_at_skew_seconds
    → within_event_bounds event now ≡ true
unfolding within_event_bounds
within_bounds event g now size tags hex near = rw tags (ground arith)

one_tag :
    (event : NostrEvent) (g : String)
    → event.tags ≡ ("h" ∷ g ∷ []) ∷ []
    → single_tag event "h" ≡ some g
unfolding single_tag single_tag_from
one_tag event g tags = rw tags refl

well_formed-validates :
    (verify : NostrEvent → Bool) (event : NostrEvent) (g other : String) (now : ℕ)
    → event.kind ≡ 9
    → within_event_bounds event now ≡ true
    → verify event ≡ true
    → single_tag event "h" ≡ some g
    → valid_message_content event.content ≡ true
    → validate_channel_message verify event other now ≡ (g == other)
unfolding validate_channel_message
well_formed-validates verify event g other now kind bounds signed tag content =
    rw (bounds, signed, has_tag, tag, kind) (ground arith)

content_size :
    (content : String) → valid_message_content content ≡ true → utf16_length content ≤ 16384
unfolding valid_message_content
content_size content h = ground arith

-- For a signer that returns the template's fields under a proper public key with a valid signature: a message that the client creates for a group, whose id has at most 256 units, before the year 2286, passes the check of a client whose clock is at most two days off, for that group and for no other. In particular no accepted content makes the event too large.
pub created-validates :
    (verify : NostrEvent → Bool) (sign_event : EventTemplate → NostrEvent)
    → ((t : EventTemplate) → Carries t (sign_event t) × (verify (sign_event t) ≡ true))
    → (now later : ℕ) (g other content : String) (message : ChannelMessage)
    → create_channel_message now g content ≡ inr message
    → utf16_length g ≤ 256
    → now < 10000000000
    → skew_of later now ≤ max_created_at_skew_seconds
    → validate_channel_message verify (sign_channel_message sign_event message) other later
      ≡ (g == other)
unfolding sign_channel_message
created-validates verify sign_event signer now later g other content message made short early near =
    let (kind, at, tags, same, valid) = created-fields now g content message made in
    let (k, a, t, c, hex) = (signer message.template).0 in
    let tagged = t ∙ tags in
    let dated = a ∙ at in
    let read = c ∙ same in
    let event = sign_event message.template in
    let size =
      event_size-le event g hex (rw dated early) (k ∙ kind) tagged short
        (rw read (content_size content valid)) in
    well_formed-validates verify event g other later (k ∙ kind)
      (within_bounds event g later size tagged hex (rw dated near)) (signer message.template).1
      (one_tag event g tagged) (ap valid_message_content read ∙ valid)

has_tag-eq :
    (event : NostrEvent) (g : String) → has_tag event "h" g ≡ true → single_tag event "h" ≡ some g
has_tag-eq event g h = elim (Option-cases (single_tag event "h")) [
  | inl e ↦ absurd (ground (arith, e))
  | inr (w, e) ↦ ground (arith, e, eq_iff w g)
]

-- A message that passes the check for a group has a valid signature and content of one to 16384 units, and its last `h` tag is the group's, with no value in an earlier one: it passes the check for no second group.
validated-IsLone :
    (verify : NostrEvent → Bool) (event : NostrEvent) (g : String) (now : ℕ)
    → validate_channel_message verify event g now ≡ true
    → (verify event ≡ true)
      × (1 ≤ utf16_length event.content)
      × (utf16_length event.content ≤ 16384)
      × IsLone g (values_of "h" event.tags)
unfolding validate_channel_message valid_message_content
validated-IsLone verify event g now h = elim (Bool-cases (has_tag event "h" g)) [
  | inl y ↦
      let lone = (single_tag-IsLone event g "h").0 (has_tag-eq event g y) in
      (ground arith, ground arith, ground arith, lone)
  | inr n ↦ absurd (ground arith)
]
